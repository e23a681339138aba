-- ===== src/Protocol.antt =====
-- internal/protocol/protocol.go: the requests of a client, their decoding, and the target of a
-- generation. JSON itself is a parameter of `decode_request`.
pub mod Models
pub mod Generation
pub mod Accepted
mod Sampling
pub mod Decides
pub mod Decoding
use yllmd.Base.{
  ℕ, ℤ, Bool, true, false, not, ◌&&◌, ◌||◌, String, Option, none, some, List, Result, ok, err,
  ◌>>=◌, ◌>>◌, reject, ◌==◌, ◌!=◌, string_eq, if◌then◌else◌,
}
use yllmd.Base.Float.{Float64}
use yllmd.Wire.Bytes.{Bytes}

pub record ModelTarget : Type 0 where
  pub model : String
  pub group : String
  pub profile : String

abbrev pub no_target : ModelTarget
no_target = record { model = ""; group = ""; profile = "" }

pub record Message : Type 0 where
  pub role : String
  pub content : String

pub record Input : Type 0 where
  pub kind : String
  pub prompt : String
  pub messages : List Message

pub record Output : Type 0 where
  pub format : String
  pub delivery : String

-- Stop strings are only measured and sent on, so they are bytes. `seed` is a `uint64`.
pub record GenerationSettings : Type 0 where
  pub temperature : Option Float64
  pub top_p : Option Float64
  pub max_tokens : Option ℤ
  pub top_k : Option ℤ
  pub min_p : Option Float64
  pub presence_penalty : Option Float64
  pub repeat_penalty : Option Float64
  pub seed : Option ℕ
  pub stop : List Bytes
  pub stream : Option Bool
  pub output : Option Output

pub record QueueOptions : Type 0 where
  pub policy : String
  pub timeout_ms : ℤ

-- `type` of the source is `kind` here.
pub record Request : Type 0 where
  pub kind : String
  pub id : String
  pub action : String
  pub provider : String
  pub target : Option ModelTarget
  pub model : String
  pub version : String
  pub file : String
  pub sha256 : String
  pub activate : Option Bool
  pub license_accepted : Bool
  pub stream : Option Bool
  pub output_format : String
  pub input : Option Input
  pub settings : GenerationSettings
  pub queue : QueueOptions

pub data RequestError : Type 0 where
  wrong_type wrong_action model_required version_required file_required sha256_required :
      RequestError
  type_required id_required uses_model_type uses_level malformed_json : RequestError
  input_required top_level_model model_with_route profile_without_group : RequestError
  prompt_required messages_required : RequestError
  role_unsupported content_required : ℕ → RequestError
  kind_unsupported : String → RequestError
  bad_temperature bad_top_p bad_max_tokens bad_top_k bad_min_p : RequestError
  bad_presence_penalty bad_repeat_penalty bad_seed too_many_stops stops_too_long : RequestError
  bad_stop : ℕ → RequestError
  bad_format bad_delivery bad_output_format bad_policy : String → RequestError
  negative_timeout : RequestError

abbrev pub message_generate : String
message_generate = "generate"

abbrev pub message_cancel : String
message_cancel = "cancel"

abbrev pub message_health : String
message_health = "health"

abbrev pub message_status : String
message_status = "status"

abbrev pub message_models : String
message_models = "models"

abbrev pub message_providers : String
message_providers = "providers"

abbrev pub target_or_empty : Option ModelTarget → ModelTarget
target_or_empty none = no_target
target_or_empty (some t) = t

-- `Request.NormalizedTarget`
unfoldable pub normalized_target : Request → Result RequestError ModelTarget
normalized_target r = do
  reject (r.model != "") top_level_model
  let target = target_or_empty r.target
  reject ((target.model != "") && ((target.group != "") || (target.profile != ""))) model_with_route
  reject ((target.profile != "") && (target.group == "")) profile_without_group
  ok target
