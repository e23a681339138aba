-- ===== src/Protocol/Generation.antt =====
-- internal/protocol/protocol.go: `ValidateGenerate`, the input, the sampling settings, the stop
-- strings and the output options in the order of the source.
use yllmd.Base.{
  ℕ, suc, ◌+◌, ◌-◌, ◌^◌, is_negative, is_nonpositive, exceeds, Bool, false, not, ◌&&◌, ◌||◌, String,
  Option, none, some, List, [], ◌∷◌, Result, ok, err, ◌>>=◌, ◌>>◌, reject, length, is_empty, ltb,
  ◌==◌, ◌!=◌, string_eq, nat_eq, if◌then◌else◌,
}
use yllmd.Base.Float.{Float64, finite, float_lt, float_le}
use yllmd.Wire.Bytes.{Bytes}
use yllmd.Wire.Utf8.{valid_utf8}
use yllmd.Protocol
use yllmd.Protocol.{
  Request, Message, Input, Output, GenerationSettings, QueueOptions, RequestError, ModelTarget,
  normalized_target, message_generate,
}
use yllmd.Protocol.Models.{is_blank}

unfoldable pub valid_role : String → Bool
valid_role role = (role == "system") || (role == "user") || (role == "assistant")

-- The loop over the messages, at index `i`.
unfoldable pub validate_messages : ℕ → List Message → Result RequestError (Unit {0})
validate_messages i [] = ok tt
validate_messages i (m ∷ ms) = do
  reject (not (valid_role m.role)) (Protocol.role_unsupported i)
  reject (is_blank m.content) (Protocol.content_required i)
  validate_messages (suc i) ms

unfoldable pub validate_input : Input → Result RequestError (Unit {0})
validate_input input =
    if input.kind == "prompt"
    then reject (is_blank input.prompt) Protocol.prompt_required
    else if input.kind == "messages"
    then (do
      reject (is_empty input.messages) Protocol.messages_required
      validate_messages 0 input.messages)
    else err (Protocol.kind_unsupported input.kind)

-- `p != nil && test(*p)`
abbrev pub given {ℓ} : {A : Type ℓ} → Option A → (A → Bool) → Bool
given none test = false
given (some a) test = test a

abbrev pub zero_float : Float64
zero_float = 0

abbrev pub one_float : Float64
one_float = 0x3ff0_0000_0000_0000

abbrev pub two_float : Float64
two_float = 0x4000_0000_0000_0000

abbrev pub minus_two_float : Float64
minus_two_float = 0xc000_0000_0000_0000

abbrev pub hundred_float : Float64
hundred_float = 0x4059_0000_0000_0000

unfoldable pub outside_closed : Float64 → Float64 → Float64 → Bool
outside_closed low high x = not (finite x) || (float_lt x low || float_lt high x)

unfoldable pub outside_half_open : Float64 → Float64 → Float64 → Bool
outside_half_open low high x = not (finite x) || (float_le x low || float_lt high x)

unfoldable pub validate_sampling : GenerationSettings → Result RequestError (Unit {0})
validate_sampling s = do
  reject (given s.temperature (outside_closed zero_float hundred_float)) Protocol.bad_temperature
  reject (given s.top_p (outside_half_open zero_float one_float)) Protocol.bad_top_p
  reject (given s.max_tokens (λ n. is_nonpositive n || exceeds n 1000000)) Protocol.bad_max_tokens
  reject (given s.top_k (λ n. is_negative n || exceeds n 1000000)) Protocol.bad_top_k
  reject (given s.min_p (outside_closed zero_float one_float)) Protocol.bad_min_p
  reject (given s.presence_penalty (outside_closed minus_two_float two_float))
      Protocol.bad_presence_penalty
  reject (given s.repeat_penalty (outside_half_open zero_float hundred_float))
      Protocol.bad_repeat_penalty
  reject (given s.seed (λ n. (n != (2 ^ 64 - 1)) && ltb (2 ^ 32 - 1) n)) Protocol.bad_seed

abbrev pub maximum_generation_stops : ℕ
maximum_generation_stops = 64

abbrev pub maximum_generation_stop_bytes : ℕ
maximum_generation_stop_bytes = 65536

-- The loop over the stop strings, at index `i` with `total` bytes seen.
unfoldable pub validate_stops : ℕ → ℕ → List Bytes → Result RequestError (Unit {0})
validate_stops i total [] = ok tt
validate_stops i total (stop ∷ stops) = do
  reject (is_empty stop || not (valid_utf8 stop)) (Protocol.bad_stop i)
  let total' = total + length stop
  reject
      (ltb maximum_generation_stop_bytes (length stop) || ltb maximum_generation_stop_bytes total')
      Protocol.stops_too_long
  validate_stops (suc i) total' stops

unfoldable pub validate_output : Option Output → Result RequestError (Unit {0})
validate_output none = ok tt
validate_output (some o) = do
  reject (not ((o.format == "json") || (o.format == "text") || (o.format == "raw")))
      (Protocol.bad_format o.format)
  reject (not ((o.delivery == "stream") || (o.delivery == "complete")))
      (Protocol.bad_delivery o.delivery)

unfoldable pub validate_queue : Request → Result RequestError (Unit {0})
validate_queue r = do
  reject ((r.queue.policy != "") && (r.queue.policy != "wait")) (Protocol.bad_policy r.queue.policy)
  reject (is_negative r.queue.timeout_ms) Protocol.negative_timeout
  let format = r.output_format
  reject (not ((format == "") || (format == "json") || (format == "text") || (format == "raw")))
      (Protocol.bad_output_format format)

unfoldable pub input_of : Request → Result RequestError Input
input_of r = elim r.input [ none ↦ err Protocol.input_required | some input ↦ ok input ]

unfoldable pub validate_generate : Request → Result RequestError (Unit {0})
unfolding input_of
validate_generate r = do
  reject (r.kind != message_generate) Protocol.wrong_type
  input ← input_of r
  target ← normalized_target r
  validate_input input
  validate_sampling r.settings
  reject (ltb maximum_generation_stops (length r.settings.stop)) Protocol.too_many_stops
  validate_stops 0 0 r.settings.stop
  validate_output r.settings.output
  validate_queue r
