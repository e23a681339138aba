-- ===== src/Wire/Frame.antt =====
-- internal/providers/local/runner_protocol.go: reading one frame from a runner, and what the
-- provider makes of finish reasons and error codes.
pub mod Roundtrip
use mathlib.Core.Bool.{cond}
use yllmd.Base.{
  ℕ, ◌+◌, Bool, true, false, not, ◌||◌, ◌&&◌, ◌∷◌, String, Option, none, some, [], ◌∷◌, Result, ok,
  err, ◌>>=◌, ◌>>◌, reject, length, take, drop, is_empty, ltb, leb, ◌==◌, ◌!=◌, nat_eq, string_eq,
  if◌then◌else◌,
}
use yllmd.Wire.Bytes.{Bytes, from_le, split}
use yllmd.Wire.Utf8.{valid_utf8}
use yllmd.Wire.Text.{utf8_bytes}
use yllmd.Wire.Generate.{runner_max_frame_bytes}

abbrev pub runner_frame_chunk : ℕ
runner_frame_chunk = 0x01

abbrev pub runner_frame_error : ℕ
runner_frame_error = 0x03

abbrev pub runner_frame_completed : ℕ
runner_frame_completed = 0x04

abbrev pub runner_frame_ready : ℕ
runner_frame_ready = 0x10

pub record RunnerCompletion : Type 0 where
  pub finish_reason : ℕ
  pub input_tokens : ℕ
  pub output_tokens : ℕ

pub record RunnerProtocolError : Type 0 where
  pub code : Bytes
  pub message : Bytes

-- The zero values are those of an untouched Go struct; `runner_error` is a pointer.
pub record RunnerFrame : Type 0 where
  pub tag : ℕ
  pub chunk : Bytes
  pub completed : RunnerCompletion
  pub runner_error : Option RunnerProtocolError

abbrev pub zero_completion : RunnerCompletion
zero_completion = record { finish_reason = 0; input_tokens = 0; output_tokens = 0 }

abbrev pub zero_frame : RunnerFrame
zero_frame = record { tag = 0; chunk = []; completed = zero_completion; runner_error = none }

pub data FrameError : Type 0 where
  eof unexpected_eof : FrameError
  frame_too_long : ℕ → FrameError
  ready_length : ℕ → FrameError
  chunk_not_utf8 : FrameError
  completed_length : ℕ → FrameError
  unknown_finish_reason : ℕ → FrameError
  truncated_error truncated_code invalid_error_text : FrameError
  unknown_tag : ℕ → FrameError

-- `io.ReadFull` from the bytes that the stream still holds before its end.
unfoldable pub read_full : ℕ → Bytes → Result FrameError (Bytes × Bytes)
unfolding split
read_full n stream = elim (split n stream) [
  | some parts ↦ ok parts
  | none ↦ if is_empty stream then err eof else err unexpected_eof
]

unfoldable pub decode_runner_chunk : Bytes → Result FrameError Bytes
decode_runner_chunk payload = do reject (not (valid_utf8 payload)) chunk_not_utf8; ok payload

-- `payload[0]`, which is read only where there is a byte.
abbrev pub first : Bytes → ℕ
first [] = 0
first (b ∷ bs) = b

-- `payload[start : start + size]`
abbrev pub slice : ℕ → ℕ → Bytes → Bytes
slice start size payload = take size (drop start payload)

unfoldable pub decode_runner_completed : Bytes → Result FrameError RunnerCompletion
decode_runner_completed payload = do
  reject (length payload != 9) (completed_length (length payload))
  let reason = first payload
  reject (ltb 3 reason) (unknown_finish_reason reason)
  ok (record {
    finish_reason = reason;
    input_tokens = from_le (slice 1 4 payload);
    output_tokens = from_le (slice 5 4 payload);
  })

unfoldable pub decode_runner_error : Bytes → Result FrameError RunnerProtocolError
decode_runner_error payload = do
  reject (ltb (length payload) 2) truncated_error
  let code_length = from_le (take 2 payload)
  reject (ltb (length payload) (2 + code_length)) truncated_code
  let code = slice 2 code_length payload
  let message = drop (2 + code_length) payload
  reject (is_empty code || (not (valid_utf8 code) || not (valid_utf8 message))) invalid_error_text
  ok (record { code = code; message = message })

-- The `switch` on the tag. Go returns the half-built frame beside a decoding error; no caller reads it.
unfoldable pub decode_payload : ℕ → Bytes → Result FrameError RunnerFrame
unfolding decode_runner_chunk decode_runner_completed decode_runner_error
decode_payload tag payload =
    if tag == runner_frame_ready
    then (do
      reject (length payload != 0) (ready_length (length payload))
      ok (record zero_frame { tag = tag }))
    else if tag == runner_frame_chunk
    then (do
      chunk ← decode_runner_chunk payload
      ok (record zero_frame { tag = tag; chunk = chunk }))
    else if tag == runner_frame_completed
    then (do
      completed ← decode_runner_completed payload
      ok (record zero_frame { tag = tag; completed = completed }))
    else if tag == runner_frame_error
    then (do
      e ← decode_runner_error payload
      ok (record zero_frame { tag = tag; runner_error = some e }))
    else err (unknown_tag tag)

-- A frame and the rest of the stream.
unfoldable pub read_runner_protocol_frame : Bytes → Result FrameError (RunnerFrame × Bytes)
unfolding read_full decode_payload
read_runner_protocol_frame stream = do
  (header, rest) ← read_full 5 stream
  let size = from_le (drop 1 header)
  reject (ltb runner_max_frame_bytes size) (frame_too_long size)
  (payload, rest') ← read_full size rest
  frame ← decode_payload (first header) payload
  ok (frame, rest')

abbrev same_bytes : Bytes → Bytes → Bool
same_bytes [] [] = true
same_bytes (x ∷ xs) (y ∷ ys) = (x == y) && same_bytes xs ys
same_bytes _ _ = false

unfoldable pub runner_finish_reason : ℕ → String
runner_finish_reason reason =
    if reason == 0
    then "eos"
    else if reason == 1
    then "length"
    else if reason == 2
    then "stop"
    else if reason == 3
    then "cancelled"
    else "unknown"

-- A comparison of Go strings, as their bytes.
unfoldable pub same_text : Bytes → String → Bool
unfolding utf8_bytes
same_text bs text = same_bytes bs (utf8_bytes text)

unfoldable pub runner_error_is_fatal : Bytes → Bool
unfolding same_text
runner_error_is_fatal code =
    same_text code "malformed_frame"
    || same_text code "frame_too_large"
    || same_text code "decode_failed"
    || same_text code "detokenize_failed"
    || same_text code "invalid_backend_utf8"
    || same_text code "not_configured"
