-- ===== src/Wire/Stream.antt =====
-- internal/providers/local/runner.go: the goroutine that reads frames until an error. What it sends
-- on its channel before closing it is a list: frames, then at most one error; a clean end adds none.
use mathlib.Core.Option
use yllmd.Base.{
  ℕ, zero, suc, ◌+◌, ◌≤◌, ◌<◌, ◌≡◌, ◌≢◌, ◌⊎◌, refl, ap, ◌∙◌, inl, inr, Option, none, some, List, [],
  ◌∷◌, ◌++◌, arith, length, length-append, drop, All, Result, ok, err, Result-cases, ltb, leb→le,
  reject, >>=-eq-ok,
}
use yllmd.Wire.Bytes.{Bytes, from_le}
use yllmd.Wire.Frame.{
  RunnerFrame, FrameError, eof, unexpected_eof, frame_too_long, ready_length, chunk_not_utf8,
  completed_length, unknown_finish_reason, truncated_error, truncated_code, invalid_error_text,
  unknown_tag, first, read_full, decode_payload, read_runner_protocol_frame,
}
use yllmd.Wire.Frame.Roundtrip.{
  Reply, encode_reply, frame_of, IsLegal, read_runner_protocol_frame-encode_reply,
}

abbrev pub FrameResult : Type 0
FrameResult = Result FrameError RunnerFrame

-- `errors.Is(err, io.EOF)`
abbrev pub last_result : FrameError → List FrameResult
last_result eof = []
last_result e = err e ∷ []

-- `none` only if the fuel runs out.
unfoldable pub frames_loop : ℕ → Bytes → Option (List FrameResult)
frames_loop zero stream = none
frames_loop (suc fuel) stream = elim (read_runner_protocol_frame stream) [
  | err e ↦ some (last_result e)
  | ok (frame, rest) ↦ Option.map (λ frames. ok frame ∷ frames) (frames_loop fuel rest)
]

-- Each frame takes bytes from the stream, so that their number is fuel enough.
unfoldable pub read_runner_frames : Bytes → Option (List FrameResult)
unfolding frames_loop
read_runner_frames stream = frames_loop (suc (length stream)) stream

length-drop : (n : ℕ) (bs : Bytes) → n ≤ length bs → length (drop n bs) + n ≡ length bs
length-drop zero bs h = omega arith
length-drop (suc n) [] h = omega arith
length-drop (suc n) (b ∷ bs) h = omega (arith, length-drop n bs)

read_full-length :
    (n : ℕ) (stream xs ys : Bytes)
    → read_full n stream ≡ ok (xs, ys)
    → length ys + n ≡ length stream
unfolding read_full
read_full-length n stream xs ys h = ground (arith, length-drop n stream, leb→le n (length stream))

-- A frame that was read has taken at least its header.
read_runner_protocol_frame-shorter :
    (stream : Bytes) (frame : RunnerFrame) (rest : Bytes)
    → read_runner_protocol_frame stream ≡ ok (frame, rest)
    → length rest < length stream
unfolding read_runner_protocol_frame
read_runner_protocol_frame-shorter stream frame rest h =
    let ((header, body), read_header, h1) = >>=-eq-ok (read_full 5 stream) _ h in
    let size = from_le (drop 1 header) in
    let (_, _, h2) = >>=-eq-ok (reject (ltb 33554432 size) (frame_too_long size)) _ h1 in
    let ((payload, left), read_payload, h3) = >>=-eq-ok (read_full size body) _ h2 in
    let (decoded, _, h4) = >>=-eq-ok (decode_payload (first header) payload) _ h3 in
    ground (
      arith,
      read_full-length 5 stream header body read_header,
      read_full-length size body payload left read_payload,
    )

frames_loop-total :
    (fuel : ℕ) (stream : Bytes)
    → length stream < fuel
    → (results : List FrameResult) × (frames_loop fuel stream ≡ some results)
unfolding frames_loop
frames_loop-total zero stream h = absurd (omega arith)
frames_loop-total (suc fuel) stream h = elim (Result-cases (read_runner_protocol_frame stream)) [
  | inr (e, failed) ↦ (last_result e, rw (failed, frames_loop))
  | inl ((frame, rest), read) ↦
      let (results, total) =
        frames_loop-total fuel rest
          (omega (arith, read_runner_protocol_frame-shorter stream frame rest read)) in
      (ok frame ∷ results, rw (read, frames_loop, total))
]

abbrev pub encode_replies : List Reply → Bytes → Bytes
encode_replies [] tail = tail
encode_replies (r ∷ rs) tail = encode_reply r ++ encode_replies rs tail

abbrev pub frames_of : List Reply → List FrameResult → List FrameResult
frames_of [] last = last
frames_of (r ∷ rs) last = ok (frame_of r) ∷ frames_of rs last

last_result-cases :
    (e : FrameError)
    → ((e ≡ eof) × (last_result e ≡ [])) ⊎ ((e ≢ eof) × (last_result e ≡ err e ∷ []))
last_result-cases eof = inl (refl, refl)
last_result-cases unexpected_eof = inr (λ same. cc, refl)
last_result-cases (frame_too_long x0) = inr (λ same. cc, refl)
last_result-cases (ready_length x0) = inr (λ same. cc, refl)
last_result-cases chunk_not_utf8 = inr (λ same. cc, refl)
last_result-cases (completed_length x0) = inr (λ same. cc, refl)
last_result-cases (unknown_finish_reason x0) = inr (λ same. cc, refl)
last_result-cases truncated_error = inr (λ same. cc, refl)
last_result-cases truncated_code = inr (λ same. cc, refl)
last_result-cases invalid_error_text = inr (λ same. cc, refl)
last_result-cases (unknown_tag x0) = inr (λ same. cc, refl)

length-encode_replies :
    (rs : List Reply) (tail : Bytes) → length rs ≤ length (encode_replies rs tail)
unfolding encode_reply
length-encode_replies [] tail = omega arith
length-encode_replies (r ∷ rs) tail = omega (
  arith,
  length-append {0} (encode_reply r) (encode_replies rs tail),
  length-encode_replies rs tail,
)

frames_loop-encode_replies :
    (fuel : ℕ) (rs : List Reply) (tail : Bytes) (e : FrameError)
    → length rs < fuel
    → All IsLegal rs
    → read_runner_protocol_frame tail ≡ err e
    → frames_loop fuel (encode_replies rs tail) ≡ some (frames_of rs (last_result e))
unfolding frames_loop
frames_loop-encode_replies zero rs tail e h legal ends = absurd (omega arith)
frames_loop-encode_replies (suc fuel) [] tail e h legal ends = rw (ends, frames_loop)
frames_loop-encode_replies (suc fuel) (r ∷ rs) tail e h legal ends = rw (
  read_runner_protocol_frame-encode_reply r (encode_replies rs tail) legal.0,
  frames_loop,
  frames_loop-encode_replies fuel rs tail e (omega arith) legal.1 ends,
)

-- The reader always comes to an end of its stream: the fuel is enough on any bytes.
pub read_runner_frames-total :
    (stream : Bytes) → (results : List FrameResult) × (read_runner_frames stream ≡ some results)
unfolding read_runner_frames
read_runner_frames-total stream = frames_loop-total (suc (length stream)) stream (omega arith)

pub read_runner_frames-encode_replies :
    (rs : List Reply) (tail : Bytes) (e : FrameError)
    → All IsLegal rs
    → read_runner_protocol_frame tail ≡ err e
    → ((e ≡ eof) × (read_runner_frames (encode_replies rs tail) ≡ some (frames_of rs [])))
      ⊎ ((e ≢ eof)
          × (read_runner_frames (encode_replies rs tail) ≡ some (frames_of rs (err e ∷ []))))
unfolding read_runner_frames
read_runner_frames-encode_replies rs tail e legal ends =
    let all =
      frames_loop-encode_replies (suc (length (encode_replies rs tail))) rs tail e
        (omega (arith, length-encode_replies rs tail)) legal ends in
    elim (last_result-cases e) [
      | inl (clean, nothing) ↦ inl (clean, all ∙ ap (λ r. some (frames_of rs r)) nothing)
      | inr (other, only) ↦ inr (other, all ∙ ap (λ r. some (frames_of rs r)) only)
    ]
