-- ===== src/Daemon/Replies.antt =====
-- internal/daemon/server.go: `runJob` and `runTextJob`, the loops that pass a provider's events on to a
-- client.
use yllmd.Base.{Bool, true, false, not, ◌&&◌, List, [], ◌∷◌, ◌++◌, is_empty, if◌then◌else◌}
use yllmd.Wire.Bytes.{Bytes}
use yllmd.Wire.Frame.{RunnerProtocolError}
use yllmd.Runner.Answer.{RunnerEvent, started, delta, completed, cancelled, failed}

-- What a loop meets: an event, with whether its write succeeds; the channel closed; the context ended.
pub data Moment : Type 0 where
  event : RunnerEvent → Bool → Moment
  no_more : Moment
  ended : Moment

-- What it writes: an event as JSON, raw text, one of the fixed lines, or the end of the connection.
pub data Reply : Type 0 where
  forwarded : RunnerEvent → Reply
  text error_line : Bytes → Reply
  cancelled_event cancelled_line error_cancelled : Reply
  closed : Reply

-- What is written, and whether the job's context is cancelled by the loop.
abbrev pub Replies : Type 0
Replies = List Reply × Bool

-- `runJob` in JSON mode, once the provider has given its events.
unfoldable pub run_job : List Moment → Replies
run_job [] = ([], false)
run_job (ended ∷ rest) = (cancelled_event ∷ [], false)
run_job (no_more ∷ rest) = ([], false)
run_job (event e written ∷ rest) =
    let (replies, cancels) = run_job rest in
    if written then (forwarded e ∷ replies, cancels) else (forwarded e ∷ [], true)

-- `message`, or the code where it is empty.
abbrev pub error_text : RunnerProtocolError → Bytes
error_text e = if is_empty e.message then e.code else e.message

-- The case of a completion, with the chunks so far.
unfoldable pub complete_text : Bool → Bytes → Bytes → List Reply
complete_text stream chunks all =
    if is_empty all
    then (if stream then closed ∷ [] else text chunks ∷ closed ∷ [])
    else text all ∷ closed ∷ []

unfoldable pub run_text_job : Bool → Bytes → List Moment → Replies
unfolding complete_text
run_text_job stream chunks [] = ([], false)
run_text_job stream chunks (ended ∷ rest) = (error_cancelled ∷ closed ∷ [], false)
run_text_job stream chunks (no_more ∷ rest) =
    (if not stream && not (is_empty chunks) then text chunks ∷ closed ∷ [] else closed ∷ [], false)
run_text_job stream chunks (event started written ∷ rest) = run_text_job stream chunks rest
run_text_job stream chunks (event (delta t) written ∷ rest) =
    let (replies, cancels) = run_text_job stream (if stream then chunks else chunks ++ t) rest in
    if not stream
    then (replies, cancels)
    else if written
    then (text t ∷ replies, cancels)
    else (text t ∷ closed ∷ [], true)
run_text_job stream chunks (event (completed reason all input output total) written ∷ rest) =
    (complete_text stream chunks all, false)
run_text_job stream chunks (event cancelled written ∷ rest) = (cancelled_line ∷ closed ∷ [], false)
run_text_job stream chunks (event (failed e) written ∷ rest) =
    (error_line (error_text e) ∷ closed ∷ [], false)
