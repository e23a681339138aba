-- ===== src/Daemon.antt =====
-- internal/daemon/server.go: the daemon. What a handler writes to a client, the options of a
-- generation that decide how it answers, and the refusals of a generation.
pub mod Intake
pub mod Queue
pub mod Steps
pub mod Replies
pub mod Texts
pub mod Models
use yllmd.Base.{
  ℕ, ◌*◌, ℤ, pos, negsuc, Bool, true, false, not, ◌&&◌, ◌||◌, String, ◌<>◌, Option, none, some,
  List, [], ◌∷◌, is_nonpositive, ◌==◌, string_eq, if◌then◌else◌,
}
use yllmd.Protocol.{Request, Output, ModelTarget}
use yllmd.Registry.{ResolvedTarget}

-- The codes of the error events of a generation.
pub data Refusal : Type 0 where
  invalid_request provider_not_implemented model_unavailable shutting_down : Refusal
  already_active already_queued queue_timeout queue_full cancelled_before_start : Refusal

-- What goes out on a connection: an event as a line of JSON, raw text, or its end.
pub data Written : Type 0 where
  accepted : String → ℕ → Written
  refused : String → Refusal → Written
  raw_error : Refusal → Written
  raw : String → Written
  delta completed : String → String → Written
  event : String → String → Written
  closed : Written

-- `outputFormat`
unfoldable pub output_format : Request → String
output_format req = elim req.settings.output [
  | some o ↦ if (o.format == "text") || (o.format == "raw") then "text" else "json"
  | none ↦ if (req.output_format == "text") || (req.output_format == "raw") then "text" else "json"
]

abbrev said_no : Option Bool → Bool
said_no none = false
said_no (some b) = not b

-- `outputDelivery`
unfoldable pub output_delivery : Request → String
output_delivery req = elim req.settings.output [
  | some o ↦ o.delivery
  | none ↦
      if said_no req.settings.stream
      then "complete"
      else if said_no req.stream
      then "complete"
      else "stream"
]

-- `writeGenerateError`: an error event, or in text mode one line and the end of the connection.
unfoldable pub write_generate_error : Request → Refusal → List Written
unfolding output_format
write_generate_error req refusal =
    if output_format req == "text"
    then raw_error refusal ∷ closed ∷ []
    else refused req.id refusal ∷ []

-- `requestTimeout`, in nanoseconds.
unfoldable pub request_timeout : ℤ → Request → ℤ
request_timeout default_timeout req = elim req.queue.timeout_ms [
  | pos n ↦ if is_nonpositive (pos n) then default_timeout else pos (n * 1000000)
  | negsuc n ↦ default_timeout
]
