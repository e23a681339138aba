-- ===== src/Runner/Answer.antt =====
-- internal/providers/local/runner.go: `run` once the session stands, and `cancelAndDrain`. What the
-- loop meets is a list of arrivals. Every event carries the request's id, which is left out.
use yllmd.Base.{
  ℕ, ◌+◌, Bool, true, false, not, ◌&&◌, String, Option, none, some, List, [], ◌∷◌, ◌++◌, ok, err,
  ◌==◌, nat_eq, string_eq, if◌then◌else◌,
}
use yllmd.Wire.Bytes.{Bytes}
use yllmd.Wire.Frame.{
  RunnerCompletion, RunnerProtocolError, FrameError, runner_frame_chunk, runner_frame_completed,
  runner_frame_error, runner_finish_reason, runner_error_is_fatal,
}
use yllmd.Wire.Text.{utf8_bytes}
use yllmd.Wire.Stream.{FrameResult}

-- What `readFrame` finds: the next result of the channel, the channel closed, or the context ended.
-- The Boolean says whether the context still lives when the code next looks at it.
pub data Arrival : Type 0 where
  came : FrameResult → Bool → Arrival
  stdout_closed : Bool → Arrival
  stopped : Arrival

pub data RunError : Type 0 where
  bad_frame : FrameError → RunError
  runner_closed context_ended empty_error send_failed : RunError
  unexpected_tag : ℕ → RunError

pub data RunnerEvent : Type 0 where
  started cancelled : RunnerEvent
  delta : Bytes → RunnerEvent
  completed : String → Bytes → ℕ → ℕ → ℕ → RunnerEvent
  failed : RunnerProtocolError → RunnerEvent

-- `run` returns nil, with the session kept or discarded; it returns an error and has discarded the
-- session; or it still waits for a frame.
pub data Outcome : Type 0 where
  finished : Bool → Outcome
  errored : RunError → Outcome
  pending : Outcome

-- The loop of `cancelAndDrain`. No further arrival means that its time runs out.
unfoldable pub drain : List Arrival → Bool
drain [] = false
drain (stopped ∷ rest) = false
drain (stdout_closed live ∷ rest) = false
drain (came (err e) live ∷ rest) = false
drain (came (ok frame) live ∷ rest) =
    let later = drain rest in
    if frame.tag == runner_frame_chunk then later else frame.tag == runner_frame_completed

-- `wrote` says whether the Cancel message goes out.
unfoldable pub cancel_and_drain : Bool → List Arrival → Bool
unfolding drain
cancel_and_drain wrote rest = wrote && drain rest

-- `if err != nil` after `readFrame`.
unfoldable pub interrupted : Bool → Bool → RunError → List Arrival → List RunnerEvent × Outcome
unfolding cancel_and_drain
interrupted wrote live e rest =
    if not live && cancel_and_drain wrote rest then ([], finished true) else ([], errored e)

abbrev pub sent : Bool → RunnerEvent → List RunnerEvent
sent live e = if live then e ∷ [] else []

unfoldable pub completion : RunnerCompletion → Bytes → RunnerEvent
unfolding runner_finish_reason
completion c text =
    let reason = runner_finish_reason c.finish_reason in
    if reason == "cancelled"
    then cancelled
    else completed reason text c.input_tokens c.output_tokens (c.input_tokens + c.output_tokens)

unfoldable pub on_error : Bool → Option RunnerProtocolError → List RunnerEvent × Outcome
unfolding runner_error_is_fatal
on_error live none = ([], errored empty_error)
on_error live (some e) = (sent live (failed e), finished (not (runner_error_is_fatal e.code)))

-- The loop of `run`, with `text` the chunks so far.
unfoldable pub answer : Bool → Bool → Bytes → List Arrival → List RunnerEvent × Outcome
unfolding interrupted cancel_and_drain completion on_error
answer stream wrote text [] = ([], pending)
answer stream wrote text (stopped ∷ rest) = interrupted wrote false context_ended rest
answer stream wrote text (stdout_closed live ∷ rest) = interrupted wrote live runner_closed rest
answer stream wrote text (came (err e) live ∷ rest) = interrupted wrote live (bad_frame e) rest
answer stream wrote text (came (ok frame) live ∷ rest) =
    let (events, outcome) = answer stream wrote (text ++ frame.chunk) rest in
    if frame.tag == runner_frame_chunk
    then (if stream && not live
        then ([], finished (cancel_and_drain wrote rest))
        else if stream
        then (delta frame.chunk ∷ events, outcome)
        else (events, outcome))
    else if frame.tag == runner_frame_completed
    then (sent live (completion frame.completed text), finished true)
    else if frame.tag == runner_frame_error
    then on_error live frame.runner_error
    else ([], errored (unexpected_tag frame.tag))

-- `run` from its `started` event on: whether the client takes that event, and whether the Generate
-- message goes out.
unfoldable pub run : Bool → Bool → Bool → Bool → List Arrival → List RunnerEvent × Outcome
unfolding answer
run stream takes generated wrote arrivals =
    let (events, outcome) = answer stream wrote [] arrivals in
    if not takes
    then ([], finished true)
    else if not generated
    then (started ∷ [], errored send_failed)
    else (started ∷ events, outcome)

-- `sendProviderError`, with the text of an error; `live` says whether the context still lives.
abbrev pub provider_error : (RunError → Bytes) → Bool → Outcome → List RunnerEvent
provider_error message live (errored e) =
    sent live (failed (record { code = utf8_bytes "runner_failed"; message = message e }))
provider_error message live _ = []

-- The goroutine of `Generate`: `run` from its `started` event on, and the event for its error.
unfoldable pub provide :
    (RunError → Bytes) → Bool → Bool → Bool → Bool → Bool → List Arrival → List RunnerEvent
unfolding run
provide message live stream takes generated wrote arrivals =
    let (events, outcome) = run stream takes generated wrote arrivals in
    events ++ provider_error message live outcome
