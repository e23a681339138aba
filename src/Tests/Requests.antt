-- ===== src/Tests/Requests.antt =====
-- Requests of a client: one that is accepted, and some that are not.
use yllmd.Base.{◌≡◌, ◌↔◌, refl, ok, err, some, pos}
use yllmd.Base.Float.{finite, float_lt}
use yllmd.Wire.Utf8.{valid_utf8}
use yllmd.Protocol.{wrong_type, bad_max_tokens, normalized_target}
use yllmd.Protocol.Models.{is_blank}
use yllmd.Protocol.Generation.{
  validate_generate, validate_input, validate_messages, valid_role, validate_sampling,
  outside_closed, validate_stops, validate_output, validate_queue,
}
use yllmd.Protocol.Accepted.{IsAccepted}
use yllmd.Protocol.Decides.{validate_generate-ok_iff}
use yllmd.Tests.Data.{request_of, plain_settings}

pub accepts_test : validate_generate (request_of "a") ≡ ok tt
unfolding validate_generate normalized_target validate_input validate_messages valid_role is_blank
    validate_sampling outside_closed finite float_lt validate_stops valid_utf8 validate_output
    validate_queue
accepts_test = refl

wrong_type_test : validate_generate (record (request_of "a") { kind = "cancel" }) ≡ err wrong_type
unfolding validate_generate
wrong_type_test = refl

max_tokens_test :
    validate_generate
      (record (request_of "a") { settings = record plain_settings { max_tokens = some (pos 0) } })
    ≡ err bad_max_tokens
unfolding validate_generate normalized_target validate_input validate_messages valid_role is_blank
    validate_sampling outside_closed finite float_lt
max_tokens_test = refl

validate_generate-ok_iff_example :
    (validate_generate (request_of "a") ≡ ok tt) ↔ IsAccepted (request_of "a")
validate_generate-ok_iff_example = validate_generate-ok_iff (request_of "a")
