-- ===== src/Wire/Generate.antt =====
-- internal/providers/local/runner_protocol.go: the Generate message, with the limits that its
-- encoder enforces, and its payload. A Go string is its bytes here.
pub mod Limits
pub mod Payload
use yllmd.Base.{
  ℕ, suc, ◌+◌, ◌%◌, ◌^◌, ◌||◌, ◌&&◌, not, List, [], ◌∷◌, ◌++◌, Result, ok, err, ◌>>=◌, ◌>>◌, reject,
  length, is_empty, ltb, ◌!=◌, nat_eq,
}
use yllmd.Base.Float.{Float64}
use yllmd.Wire.Bytes.{Bytes, le_bytes}
use yllmd.Wire.Utf8.{valid_utf8}

abbrev pub runner_max_frame_bytes : ℕ
runner_max_frame_bytes = 33554432

abbrev pub runner_max_prompt_bytes : ℕ
runner_max_prompt_bytes = 16777216

abbrev pub runner_max_stop_count : ℕ
runner_max_stop_count = 64

abbrev pub runner_max_stop_bytes : ℕ
runner_max_stop_bytes = 65536

abbrev pub runner_tokenization_raw : ℕ
runner_tokenization_raw = 0

abbrev pub runner_tokenization_formatted : ℕ
runner_tokenization_formatted = 1

-- `top_k` holds the 32 bits of the source's `int32`.
pub record RunnerGenerate : Type 0 where
  pub prompt : Bytes
  pub tokenization_mode : ℕ
  pub max_tokens : ℕ
  pub temperature : Float64
  pub top_p : Float64
  pub top_k : ℕ
  pub min_p : Float64
  pub presence_penalty : Float64
  pub repeat_penalty : Float64
  pub seed : ℕ
  pub stops : List Bytes

pub data EncodeError : Type 0 where
  invalid_mode : ℕ → EncodeError
  prompt_not_utf8 : EncodeError
  prompt_too_long : EncodeError
  too_many_stops : EncodeError
  invalid_stop : ℕ → EncodeError
  stops_too_long : EncodeError
  payload_too_long : EncodeError
  unsupported_control : ℕ → EncodeError

-- The loop over the stop strings, at index `i` with `total` bytes seen.
unfoldable pub check_stops : ℕ → ℕ → List Bytes → Result EncodeError (Unit {0})
check_stops i total [] = ok tt
check_stops i total (stop ∷ stops) = do
  reject (is_empty stop || not (valid_utf8 stop)) (invalid_stop i)
  let total' = total + length stop
  reject (ltb runner_max_stop_bytes (length stop) || ltb runner_max_stop_bytes total')
      stops_too_long
  check_stops (suc i) total' stops

unfoldable pub encode_stops : List Bytes → Bytes
encode_stops [] = []
encode_stops (stop ∷ stops) = le_bytes 4 (length stop % 2 ^ 32) ++ (stop ++ encode_stops stops)

-- What is written to the payload buffer, in order.
unfoldable pub generate_payload : RunnerGenerate → Bytes
unfolding encode_stops
generate_payload r =
    (r.tokenization_mode ∷ (length r.stops % 256) ∷ [])
    ++ (le_bytes 4 r.max_tokens
        ++ (le_bytes 8 r.temperature
            ++ (le_bytes 8 r.top_p
                ++ (le_bytes 4 r.top_k
                    ++ (le_bytes 8 r.min_p
                        ++ (le_bytes 8 r.presence_penalty
                            ++ (le_bytes 8 r.repeat_penalty
                                ++ (le_bytes 8 r.seed ++ (encode_stops r.stops ++ r.prompt)))))))))

unfoldable pub encode_runner_generate : RunnerGenerate → Result EncodeError Bytes
unfolding check_stops generate_payload
encode_runner_generate r = do
  reject
      ((r.tokenization_mode != runner_tokenization_raw)
        && (r.tokenization_mode != runner_tokenization_formatted))
      (invalid_mode r.tokenization_mode)
  reject (not (valid_utf8 r.prompt)) prompt_not_utf8
  reject (ltb runner_max_prompt_bytes (length r.prompt)) prompt_too_long
  reject (ltb runner_max_stop_count (length r.stops)) too_many_stops
  check_stops 0 0 r.stops
  let payload = generate_payload r
  reject (ltb runner_max_frame_bytes (length payload)) payload_too_long
  ok payload
