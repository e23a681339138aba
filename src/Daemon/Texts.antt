-- ===== src/Daemon/Texts.antt =====
-- internal/daemon/server.go and internal/providers/local/runner.go: the text that a client of text mode
-- gets, from the bytes of the runner to the socket.
use mathlib.Core.List.{append_assoc, append-nil}
use yllmd.Base.{
  ℕ, zero, suc, ◌+◌, ◌≤◌, ◌≡◌, refl, sym, ap, ◌∙◌, arith, Bool, true, false, some, List, [], ◌∷◌,
  ◌++◌, All, ◌==◌, string_eq, nat_eq,
}
use yllmd.Wire.Bytes.{Bytes}
use yllmd.Wire.Frame.{RunnerCompletion, runner_finish_reason}
use yllmd.Wire.Frame.Roundtrip.{IsLegal}
use yllmd.Wire.Frame.Roundtrip
use yllmd.Wire.Stream.{FrameResult, read_runner_frames, encode_replies, frames_of}
use yllmd.Runner.Answer.{RunnerEvent, completed, Outcome, finished, completion, answer, run}
use yllmd.Runner.Relay.{
  chunks_then, whole_text, deltas_then, arrivals_of, joined, whole_text-joined, IsChunk, run-chunks,
  read_chunks,
}
use yllmd.Daemon.Replies.{Moment, event, Reply, text, closed, complete_text, run_text_job}

-- Every event is written.
abbrev pub moments_of : List RunnerEvent → List Moment
moments_of [] = []
moments_of (e ∷ es) = event e true ∷ moments_of es

-- The generated text on the connection.
abbrev pub text_output : List Reply → Bytes
text_output [] = []
text_output (text t ∷ rs) = t ++ text_output rs
text_output (_ ∷ rs) = text_output rs

reason_uncancelled : (n : ℕ) → n ≤ 2 → (runner_finish_reason n == "cancelled") ≡ false
unfolding runner_finish_reason
reason_uncancelled zero h = refl
reason_uncancelled (suc zero) h = refl
reason_uncancelled (suc (suc zero)) h = refl
reason_uncancelled (suc (suc (suc n))) h = absurd (omega arith)

completion_uncancelled :
    (c : RunnerCompletion) (all : Bytes)
    → c.finish_reason ≤ 2
    → completion c all
      ≡ completed
          (runner_finish_reason c.finish_reason)
          all
          c.input_tokens
          c.output_tokens
          (c.input_tokens + c.output_tokens)
unfolding completion
completion_uncancelled c all h = rw (reason_uncancelled c.finish_reason h) refl

complete_text-output :
    (stream : Bool) (all : Bytes) → text_output (complete_text stream [] all) ≡ all
unfolding complete_text
complete_text-output true [] = refl
complete_text-output false [] = refl
complete_text-output stream (b ∷ bs) = append-nil (b ∷ bs)

streamed_output :
    (ts : List Bytes) (c : RunnerCompletion) (all : Bytes)
    → c.finish_reason ≤ 2
    → text_output (run_text_job true [] (moments_of (deltas_then ts (completion c all)))).0
      ≡ joined ts ++ all
unfolding run_text_job
streamed_output [] c all h = rw (completion_uncancelled c all h) (complete_text-output true all)
streamed_output (t ∷ ts) c all h =
    ap (◌++◌ t) (streamed_output ts c all h) ∙ sym (append_assoc t (joined ts) all)

-- When a runner writes legal chunks and a completion that is not a cancellation, a client that streams
-- in text mode gets the generated text twice: the chunks, and then all of them again.
pub streamed_twice :
    (wrote : Bool) (ts : List Bytes) (c : RunnerCompletion)
    → All IsChunk ts
    → IsLegal (Roundtrip.completed c)
    → c.finish_reason ≤ 2
    → (results : List FrameResult) × (read_runner_frames (encode_replies (chunks_then ts c) [])
        ≡ some results)
      × (text_output
            (run_text_job true [] (moments_of (run true true true wrote (arrivals_of results)).0)).0
          ≡ joined ts ++ joined ts)
streamed_twice wrote ts c h l uncancelled =
    let (results, read, events) = run-chunks wrote ts c h l in
    (
      results,
      read,
      rw (ap (λ (r : List RunnerEvent × Outcome). r.0) events) (
          unfold run_text_job in
          (streamed_output ts c (whole_text [] ts) uncancelled
            ∙ ap (◌++◌ (joined ts)) (whole_text-joined [] ts))),
    )

answer_complete :
    (wrote : Bool) (chunks : Bytes) (ts : List Bytes) (c : RunnerCompletion)
    → answer false wrote chunks (arrivals_of (frames_of (chunks_then ts c) []))
      ≡ (completion c (whole_text chunks ts) ∷ [], finished true)
unfolding answer
answer_complete wrote chunks [] c = refl
answer_complete wrote chunks (t ∷ ts) c = rw (answer_complete wrote (chunks ++ t) ts c)

complete_text-whole : (all : Bytes) → complete_text false [] all ≡ text all ∷ closed ∷ []
unfolding complete_text
complete_text-whole [] = refl
complete_text-whole (b ∷ bs) = refl

-- When a runner writes legal chunks and a completion that is not a cancellation, all that goes out on
-- the connection of a client of text mode that does not stream is the chunks, joined, in one write, and
-- then its end: no line of an error or a cancellation.
pub complete_once :
    (wrote : Bool) (ts : List Bytes) (c : RunnerCompletion)
    → All IsChunk ts
    → IsLegal (Roundtrip.completed c)
    → c.finish_reason ≤ 2
    → (results : List FrameResult) × (read_runner_frames (encode_replies (chunks_then ts c) [])
        ≡ some results)
      × (run_text_job false [] (moments_of (run false true true wrote (arrivals_of results)).0)
          ≡ (text (joined ts) ∷ closed ∷ [], false))
unfolding run run_text_job
complete_once wrote ts c h l uncancelled = (
  frames_of (chunks_then ts c) [],
  read_chunks ts c h l,
  rw (answer_complete wrote [] ts c, completion_uncancelled c (whole_text [] ts) uncancelled)
      (ap (λ rs. (rs, false))
        (complete_text-whole (whole_text [] ts)
          ∙ ap (λ t. text t ∷ closed ∷ []) (whole_text-joined [] ts))),
)
