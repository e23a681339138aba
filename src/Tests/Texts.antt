-- ===== src/Tests/Texts.antt =====
-- A client of text mode, streaming and not.
use yllmd.Base.{◌≡◌, refl, arith, true, false, some, List, [], ◌∷◌, ◌++◌}
use yllmd.Wire.Stream.{FrameResult, read_runner_frames, encode_replies}
use yllmd.Runner.Answer.{delta, completed, run}
use yllmd.Runner.Relay.{chunks_then, arrivals_of, joined}
use yllmd.Daemon.Replies.{event, text, closed, run_text_job}
use yllmd.Daemon.Texts.{moments_of, text_output, streamed_twice, complete_once}
use yllmd.Tests.Sending.{texts, texts_legal, ending}

-- One chunk, and a completion that repeats it, as the runner's provider sends it.
twice_test :
    (run_text_job true []
      (moments_of (delta (0x68 ∷ []) ∷ completed "eos" (0x68 ∷ []) 5 1 6 ∷ []))).0
    ≡ text (0x68 ∷ []) ∷ text (0x68 ∷ []) ∷ closed ∷ []
unfolding run_text_job
twice_test = refl

-- A write that fails ends the job.
broken_test :
    run_text_job true [] (event (delta (0x68 ∷ [])) false ∷ [])
    ≡ (text (0x68 ∷ []) ∷ closed ∷ [], true)
unfolding run_text_job
broken_test = refl

streamed_twice_example :
    (results : List FrameResult) × (read_runner_frames
        (encode_replies (chunks_then texts ending) [])
      ≡ some results)
    × (text_output
          (run_text_job true [] (moments_of (run true true true true (arrivals_of results)).0)).0
        ≡ joined texts ++ joined texts)
streamed_twice_example =
    streamed_twice true texts ending texts_legal (omega arith, omega arith, omega arith)
      (omega arith)

complete_once_example :
    (results : List FrameResult) × (read_runner_frames
        (encode_replies (chunks_then texts ending) [])
      ≡ some results)
    × (run_text_job false [] (moments_of (run false true true true (arrivals_of results)).0)
        ≡ (text (joined texts) ∷ closed ∷ [], false))
complete_once_example =
    complete_once true texts ending texts_legal (omega arith, omega arith, omega arith)
      (omega arith)
