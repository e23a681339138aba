-- ===== src/Runner/Provided.antt =====
-- internal/providers/local/runner.go: the events of a run, whatever arrives from the runner.
use yllmd.Base.{
  ◌≡◌, refl, inl, inr, Bool-cases, Bool, true, false, not, ◌&&◌, Option, none, some, List, [], ◌∷◌,
  ◌++◌, ok, err, ◌==◌, nat_eq, string_eq,
}
use yllmd.Wire.Bytes.{Bytes}
use yllmd.Wire.Text.{utf8_bytes}
use yllmd.Wire.Frame.{
  RunnerCompletion, RunnerProtocolError, runner_frame_chunk, runner_frame_completed,
  runner_frame_error, runner_finish_reason,
}
use yllmd.Runner.Answer.{
  Arrival, came, stdout_closed, stopped, RunError, RunnerEvent, started, cancelled, delta,
  completed, failed, Outcome, finished, interrupted, sent, completion, on_error, answer, run,
  cancel_and_drain, errored,
}

-- Deltas that add up to `text`, then at most one last event, which comes only with a return of nil;
-- the text of a completion is that of the deltas before it.
abbrev pub IsRelay : Bytes → List RunnerEvent → Outcome → Type 0
IsRelay text [] o = Unit {0}
IsRelay text (delta t ∷ events) o = IsRelay (text ++ t) events o
IsRelay text (completed reason all input output total ∷ []) (finished kept) = all ≡ text
IsRelay text (cancelled ∷ []) (finished kept) = Unit {0}
IsRelay text (failed e ∷ []) (finished kept) = Unit {0}
IsRelay text (_ ∷ _) o = ⊥

interrupted-IsRelay :
    (text : Bytes) (wrote live : Bool) (e : RunError) (rest : List Arrival)
    → IsRelay text (interrupted wrote live e rest).0 (interrupted wrote live e rest).1
unfolding interrupted
interrupted-IsRelay text wrote live e rest =
    elim (Bool-cases (not live && cancel_and_drain wrote rest)) [
      | inl drained ↦ rw drained tt
      | inr left ↦ rw left tt
    ]

completion-IsRelay :
    (text : Bytes) (live : Bool) (c : RunnerCompletion)
    → IsRelay text (sent live (completion c text)) (finished true)
unfolding completion
completion-IsRelay text false c = tt
completion-IsRelay text true c =
    elim (Bool-cases (runner_finish_reason c.finish_reason == "cancelled")) [
      | inl same ↦ rw same tt
      | inr other ↦ rw other refl
    ]

on_error-IsRelay :
    (text : Bytes) (live : Bool) (e : Option RunnerProtocolError)
    → IsRelay text (on_error live e).0 (on_error live e).1
unfolding on_error
on_error-IsRelay text live none = tt
on_error-IsRelay text false (some e) = tt
on_error-IsRelay text true (some e) = tt

answer-IsRelay :
    (wrote : Bool) (text : Bytes) (arrivals : List Arrival)
    → IsRelay text (answer true wrote text arrivals).0 (answer true wrote text arrivals).1
unfolding answer
answer-IsRelay wrote text [] = tt
answer-IsRelay wrote text (stopped ∷ rest) = interrupted-IsRelay text wrote false _ rest
answer-IsRelay wrote text (stdout_closed live ∷ rest) = interrupted-IsRelay text wrote live _ rest
answer-IsRelay wrote text (came (err e) live ∷ rest) = interrupted-IsRelay text wrote live _ rest
answer-IsRelay wrote text (came (ok frame) live ∷ rest) =
    elim (Bool-cases (frame.tag == runner_frame_chunk)) [
      | inl more ↦ rw more (elim (Bool-cases (not live)) [
        | inl gone ↦ rw gone tt
        | inr takes ↦ rw takes (answer-IsRelay wrote (text ++ frame.chunk) rest)
      ])
      | inr other ↦ rw other (elim (Bool-cases (frame.tag == runner_frame_completed)) [
        | inl whole ↦ rw whole (completion-IsRelay text live frame.completed)
        | inr neither ↦ rw neither (elim (Bool-cases (frame.tag == runner_frame_error)) [
          | inl bad ↦ rw bad (on_error-IsRelay text live frame.runner_error)
          | inr unknown ↦ rw unknown tt
        ])
      ])
    ]

pub run-IsRelay :
    (generated wrote : Bool) (arrivals : List Arrival)
    → (events : List RunnerEvent) × ((run true true generated wrote arrivals).0 ≡ started ∷ events)
      × IsRelay [] events (run true true generated wrote arrivals).1
unfolding run
run-IsRelay false wrote arrivals = ([], refl, tt)
run-IsRelay true wrote arrivals =
    ((answer true wrote [] arrivals).0, refl, answer-IsRelay wrote [] arrivals)

-- What a streaming client gets after `started`: deltas that add up to `text`, and then at most one last
-- event. A return of nil may come with a completion of exactly that text, a cancellation or the runner's
-- error; an error of `run` comes as `runner_failed` with its text, while the context lives.
module _ (message : RunError → Bytes) (live : Bool) where
  abbrev pub IsProvided : Bytes → List RunnerEvent → Outcome → Type 0
  IsProvided text [] (errored e) = live ≡ false
  IsProvided text [] o = Unit {0}
  IsProvided text (delta t ∷ events) o = IsProvided (text ++ t) events o
  IsProvided text (completed reason all input output total ∷ []) (finished kept) = all ≡ text
  IsProvided text (cancelled ∷ []) (finished kept) = Unit {0}
  IsProvided text (failed e ∷ []) (finished kept) = Unit {0}
  IsProvided text (failed x ∷ []) (errored e) =
      (live ≡ true) × (x.code ≡ utf8_bytes "runner_failed") × (x.message ≡ message e)
  IsProvided text (_ ∷ _) o = ⊥
