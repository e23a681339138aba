-- ===== src/Runner/Relay.antt =====
-- internal/providers/local/runner.go: the events of a run, from the bytes of a runner.
use yllmd.Base.{
  ℕ, zero, suc, ◌+◌, ◌≤◌, sym, ap, ◌∙◌, arith, ◌≡◌, refl, inl, inr, Bool, true, some, List, [], ◌∷◌,
  ◌++◌, err, All, nat_eq, string_eq,
}
use mathlib.Core.List.{append_assoc, append-nil}
use yllmd.Wire.Bytes.{Bytes}
use yllmd.Wire.Frame.{
  RunnerCompletion, eof, runner_finish_reason, read_runner_protocol_frame, read_full,
}
use yllmd.Wire.Frame.Roundtrip.{Reply, chunk, IsLegal, frame_of}
use yllmd.Wire.Frame.Roundtrip
use yllmd.Wire.Stream.{
  FrameResult, read_runner_frames, encode_replies, frames_of, read_runner_frames-encode_replies,
}
use yllmd.Runner.Answer.{
  Arrival, came, stdout_closed, RunnerEvent, started, cancelled, delta, completed, finished,
  completion, answer, run,
}

abbrev pub chunks_then : List Bytes → RunnerCompletion → List Reply
chunks_then [] c = Roundtrip.completed c ∷ []
chunks_then (t ∷ ts) c = chunk t ∷ chunks_then ts c

abbrev pub whole_text : Bytes → List Bytes → Bytes
whole_text text [] = text
whole_text text (t ∷ ts) = whole_text (text ++ t) ts

abbrev pub joined : List Bytes → Bytes
joined [] = []
joined (t ∷ ts) = t ++ joined ts

abbrev pub deltas_then : List Bytes → RunnerEvent → List RunnerEvent
deltas_then [] e = e ∷ []
deltas_then (t ∷ ts) e = delta t ∷ deltas_then ts e

-- Every result comes while the context lives, and then the channel is closed.
abbrev pub arrivals_of : List FrameResult → List Arrival
arrivals_of [] = stdout_closed true ∷ []
arrivals_of (r ∷ rs) = came r true ∷ arrivals_of rs

-- A chunk that the protocol allows.
abbrev pub IsChunk : Bytes → Type 0
IsChunk t = IsLegal (chunk t)

chunks_then-IsLegal :
    (ts : List Bytes) (c : RunnerCompletion)
    → All IsChunk ts
    → IsLegal (Roundtrip.completed c)
    → All IsLegal (chunks_then ts c)
chunks_then-IsLegal [] c h l = (l, tt)
chunks_then-IsLegal (t ∷ ts) c h l = (h.0, chunks_then-IsLegal ts c h.1 l)

answer-chunks :
    (wrote : Bool) (text : Bytes) (ts : List Bytes) (c : RunnerCompletion)
    → answer true wrote text (arrivals_of (frames_of (chunks_then ts c) []))
      ≡ (deltas_then ts (completion c (whole_text text ts)), finished true)
unfolding answer
answer-chunks wrote text [] c = refl
answer-chunks wrote text (t ∷ ts) c = rw (answer-chunks wrote (text ++ t) ts c)

no_frame : read_runner_protocol_frame [] ≡ err eof
unfolding read_runner_protocol_frame read_full
no_frame = refl

pub read_chunks :
    (ts : List Bytes) (c : RunnerCompletion)
    → All IsChunk ts
    → IsLegal (Roundtrip.completed c)
    → read_runner_frames (encode_replies (chunks_then ts c) [])
      ≡ some (frames_of (chunks_then ts c) [])
read_chunks ts c h l =
    elim (read_runner_frames-encode_replies (chunks_then ts c) [] eof (chunks_then-IsLegal ts c h l)
      no_frame) [ inl (_, read) ↦ read | inr (other, _) ↦ absurd (other refl) ]

pub run-chunks :
    (wrote : Bool) (ts : List Bytes) (c : RunnerCompletion)
    → All IsChunk ts
    → IsLegal (Roundtrip.completed c)
    → (results : List FrameResult) × (read_runner_frames (encode_replies (chunks_then ts c) [])
        ≡ some results)
      × (run true true true wrote (arrivals_of results)
          ≡ (started ∷ deltas_then ts (completion c (whole_text [] ts)), finished true))
unfolding run
run-chunks wrote ts c h l =
    (frames_of (chunks_then ts c) [], read_chunks ts c h l, rw (answer-chunks wrote [] ts c))

pub whole_text-joined :
    (chunks : Bytes) (ts : List Bytes) → whole_text chunks ts ≡ chunks ++ joined ts
whole_text-joined chunks [] = sym (append-nil chunks)
whole_text-joined chunks (t ∷ ts) =
    whole_text-joined (chunks ++ t) ts ∙ append_assoc chunks t (joined ts)

-- The event that stands for a legal completion of a text.
abbrev pub ending_of : ℕ → ℕ → ℕ → Bytes → RunnerEvent
ending_of zero input output text = completed "eos" text input output (input + output)
ending_of (suc zero) input output text = completed "length" text input output (input + output)
ending_of (suc (suc zero)) input output text = completed "stop" text input output (input + output)
ending_of _ input output text = cancelled

completion-ending :
    (reason input output : ℕ) (text : Bytes)
    → reason ≤ 3
    → completion
        (record { finish_reason = reason; input_tokens = input; output_tokens = output })
        text
      ≡ ending_of reason input output text
unfolding completion runner_finish_reason
completion-ending zero input output text h = refl
completion-ending (suc zero) input output text h = refl
completion-ending (suc (suc zero)) input output text h = refl
completion-ending (suc (suc (suc zero))) input output text h = refl
completion-ending (suc (suc (suc (suc n)))) input output text h = absurd (omega arith)

-- When a runner writes legal chunks and then a legal completion, and the client stays, the bytes are
-- read into frames that `run` turns into one delta per chunk, in order, and then one last event: for the
-- finish reasons 0, 1 and 2 a completion `eos`, `length` or `stop` with the chunks joined as its text,
-- the counts of the runner and their sum, and for the reason 3 a cancellation without a text; the
-- session is kept.
pub run-relays :
    (wrote : Bool) (ts : List Bytes) (c : RunnerCompletion)
    → All IsChunk ts
    → IsLegal (Roundtrip.completed c)
    → (results : List FrameResult) × (read_runner_frames (encode_replies (chunks_then ts c) [])
        ≡ some results)
      × (run true true true wrote (arrivals_of results) ≡ (
        started
            ∷ deltas_then ts (ending_of c.finish_reason c.input_tokens c.output_tokens (joined ts)),
        finished true,
      ))
run-relays wrote ts c h l =
    let (results, read, events) = run-chunks wrote ts c h l in
    let last =
      completion-ending c.finish_reason c.input_tokens c.output_tokens (whole_text [] ts) l.0
      ∙ ap (ending_of c.finish_reason c.input_tokens c.output_tokens) (whole_text-joined [] ts) in
    (results, read, events ∙ ap (λ e. (started ∷ deltas_then ts e, finished true)) last)
