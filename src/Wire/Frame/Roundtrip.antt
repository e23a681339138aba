-- ===== src/Wire/Frame/Roundtrip.antt =====
-- internal/providers/local/runner_protocol.go: the replies of a runner and their layout as frames.
use mathlib.Core.Path.{subst}
use mathlib.Core.List.{append_assoc}
use yllmd.Base.{
  ℕ, suc, ◌+◌, ◌^◌, ◌≤◌, ◌<◌, ◌≡◌, refl, true, false, is_empty, ltb, le→ltb, take-append,
  drop-append, some, [], ◌∷◌, ◌++◌, arith, length, length-append, ok,
}
use yllmd.Wire.Bytes.{Bytes, le_bytes, split-append, length-le_bytes, from_le-le_bytes}
use yllmd.Wire.Utf8.{valid_utf8}
use yllmd.Wire.Frame.{
  RunnerFrame, RunnerCompletion, RunnerProtocolError, zero_frame, read_full, decode_payload,
  decode_runner_completed, decode_runner_error, read_runner_protocol_frame,
}

pub data Reply : Type 0 where
  ready : Reply
  chunk : Bytes → Reply
  completed : RunnerCompletion → Reply
  failed : RunnerProtocolError → Reply

pub tag_of : Reply → ℕ
tag_of ready = 0x10
tag_of (chunk text) = 0x01
tag_of (completed c) = 0x04
tag_of (failed e) = 0x03

pub payload_of : Reply → Bytes
payload_of ready = []
payload_of (chunk text) = text
payload_of (completed c) =
    c.finish_reason ∷ (le_bytes 4 c.input_tokens ++ le_bytes 4 c.output_tokens)
payload_of (failed e) = le_bytes 2 (length e.code) ++ (e.code ++ e.message)

-- A frame on the wire: the tag, the payload's length in four bytes, the payload.
unfoldable pub encode_reply : Reply → Bytes
unfolding tag_of payload_of
encode_reply r = tag_of r ∷ (le_bytes 4 (length (payload_of r)) ++ payload_of r)

abbrev pub frame_of : Reply → RunnerFrame
frame_of ready = record zero_frame { tag = 0x10 }
frame_of (chunk text) = record zero_frame { tag = 0x01; chunk = text }
frame_of (completed c) = record zero_frame { tag = 0x04; completed = c }
frame_of (failed e) = record zero_frame { tag = 0x03; runner_error = some e }

-- What the protocol lets a runner send.
abbrev pub IsLegal : Reply → Type 0
IsLegal ready = Unit {0}
IsLegal (chunk text) = (valid_utf8 text ≡ true) × (length text ≤ 33554432)
IsLegal (completed c) =
    (c.finish_reason ≤ 3) × (c.input_tokens < 2 ^ 32) × (c.output_tokens < 2 ^ 32)
IsLegal (failed e) =
    (0 < length e.code)
    × (length e.code < 2 ^ 16)
    × (length e.code + length e.message ≤ 33554430)
    × (valid_utf8 e.code ≡ true)
    × (valid_utf8 e.message ≡ true)

length-payload_of : (r : Reply) → IsLegal r → length (payload_of r) ≤ 33554432
unfolding payload_of
length-payload_of ready h = omega arith
length-payload_of (chunk text) h = h.1
length-payload_of (completed c) h = omega (
  arith,
  length-append {0} (le_bytes 4 c.input_tokens) (le_bytes 4 c.output_tokens),
  length-le_bytes 4 c.input_tokens,
  length-le_bytes 4 c.output_tokens,
)
length-payload_of (failed e) h = omega (
  arith,
  length-append {0} (le_bytes 2 (length e.code)) (e.code ++ e.message),
  length-append {0} e.code e.message,
  length-le_bytes 2 (length e.code),
)

decode_completed-layout :
    (c : RunnerCompletion)
    → IsLegal (completed c)
    → decode_runner_completed (payload_of (completed c)) ≡ ok c
unfolding decode_runner_completed payload_of le_bytes
decode_completed-layout c h = rw (
  le→ltb 3 c.finish_reason h.0,
  from_le-le_bytes 4 c.input_tokens h.1,
  from_le-le_bytes 4 c.output_tokens h.2,
)

is_empty_of_pos : (bs : Bytes) → 0 < length bs → is_empty bs ≡ false
is_empty_of_pos [] h = absurd (omega arith)
is_empty_of_pos (b ∷ bs) h = refl

two-add : (n : ℕ) → 2 + n ≡ suc (suc n)
two-add n = omega arith

decode_error-layout :
    (e : RunnerProtocolError)
    → IsLegal (failed e)
    → decode_runner_error (payload_of (failed e)) ≡ ok e
unfolding decode_runner_error payload_of le_bytes
decode_error-layout e h =
    let fits : ltb (suc (suc (length (e.code ++ e.message)))) (2 + length e.code) ≡ false =
      le→ltb _ _ (omega (arith, length-append {0} e.code e.message)) in
    let enough : ltb (suc (suc (length (e.code ++ e.message)))) 2 ≡ false =
      le→ltb _ _ (omega arith) in
    rw (
      enough,
      from_le-le_bytes 2 (length e.code) h.1,
      fits,
      two-add (length e.code),
      take-append e.code e.message,
      drop-append e.code e.message,
      h.3,
      h.4,
      is_empty_of_pos e.code h.0,
    )

decode_payload-payload_of :
    (r : Reply) → IsLegal r → decode_payload (tag_of r) (payload_of r) ≡ ok (frame_of r)
unfolding decode_payload tag_of
decode_payload-payload_of ready h = unfold payload_of in refl
decode_payload-payload_of (chunk text) h = unfold payload_of in rw (h.0)
decode_payload-payload_of (completed c) h = rw (decode_completed-layout c h)
decode_payload-payload_of (failed e) h = rw (decode_error-layout e h)

read_full-append : (xs ys : Bytes) → read_full (length xs) (xs ++ ys) ≡ ok (xs, ys)
unfolding read_full
read_full-append xs ys = rw (split-append xs ys, read_full)

read_full_header :
    (tag n : ℕ) (rest : Bytes)
    → read_full 5 (tag ∷ (le_bytes 4 n ++ rest)) ≡ ok (tag ∷ le_bytes 4 n, rest)
read_full_header tag n rest =
    subst (λ k. read_full (suc k) (tag ∷ (le_bytes 4 n ++ rest)) ≡ ok (tag ∷ le_bytes 4 n, rest))
      (length-le_bytes 4 n) (read_full-append (tag ∷ le_bytes 4 n) rest)

-- Reading a legal reply gives its frame, and leaves exactly the bytes that follow it.
pub read_runner_protocol_frame-encode_reply :
    (r : Reply) (rest : Bytes)
    → IsLegal r
    → read_runner_protocol_frame (encode_reply r ++ rest) ≡ ok (frame_of r, rest)
unfolding read_runner_protocol_frame encode_reply
read_runner_protocol_frame-encode_reply r rest h =
    let size = length (payload_of r) in
    let short : size ≤ 33554432 = length-payload_of r h in
    rw (
      append_assoc (le_bytes 4 size) (payload_of r) rest,
      read_full_header (tag_of r) size (payload_of r ++ rest),
      from_le-le_bytes 4 size (omega arith),
      le→ltb 33554432 size short,
      read_full-append (payload_of r) rest,
      decode_payload-payload_of r h,
    )
