-- ===== src/Wire/Writer.antt =====
-- internal/providers/local/runner_protocol.go: `writeAll`, the envelope and the two messages that go
-- to a runner. The pipe to the process is an `io.Writer`, known by its documented contract only.

pub mod Delivery
use yllmd.Base.{
  ℕ, zero, suc, ◌+◌, ◌-◌, ◌%◌, ◌^◌, ◌≤◌, ◌<◌, ◌≡◌, ◌⊎◌, ◌≢◌, refl, Bool, true, false, Option, none,
  some, List, [], ◌∷◌, ◌++◌, arith, length, take, drop, take-append-drop, Result, ok, err, ltb,
  ◌==◌, ◌!=◌, nat_eq, if◌then◌else◌, is_empty, sym,
}
use yllmd.Wire.Bytes.{Bytes, le_bytes}
use yllmd.Wire.Generate.{
  RunnerGenerate, EncodeError, encode_runner_generate, payload_too_long, unsupported_control,
  runner_max_frame_bytes,
}

-- One call of `Write`: the new state, how many bytes were taken, and whether an error came back.
pub record Writer : Type 1 where
  pub State : Type 0
  pub sent : State → Bytes
  pub write : State → Bytes → State × ℕ × Bool

-- io.Writer: at most the whole buffer is taken, and what is taken is sent, in order.
pub record IsLawful (w : Writer) : Type 0 where
  pub taken : (s : w.State) (bs : Bytes) → (w.write s bs).1 ≤ length bs
  pub sends :
      (s : w.State) (bs : Bytes) → w.sent (w.write s bs).0 ≡ w.sent s ++ take (w.write s bs).1 bs

pub data WriteError : Type 0 where
  encode : EncodeError → WriteError
  io_error short_write out_of_fuel : WriteError

abbrev pub runner_message_generate : ℕ
runner_message_generate = 1

abbrev pub runner_message_cancel : ℕ
runner_message_cancel = 2

module _ (w : Writer) where
  abbrev Sent : Type 0
  Sent = w.State × Result WriteError (Unit {0})

  -- The loop takes as fuel the bytes that are left, since each round takes one at least.
  unfoldable pub write_loop : ℕ → w.State → Bytes → Sent
  write_loop fuel s [] = (s, ok tt)
  write_loop zero s (b ∷ bs) = (s, err out_of_fuel)
  write_loop (suc fuel) s (b ∷ bs) =
      let (s', written, failed) = w.write s (b ∷ bs) in
      let rest = write_loop fuel s' (drop written (b ∷ bs)) in
      if failed then (s', err io_error) else if written == 0 then (s', err short_write) else rest

  unfoldable pub write_all : w.State → Bytes → Sent
  unfolding write_loop
  write_all s bs = write_loop (length bs) s bs

  -- The second write of the envelope, made only if the header went out.
  pub write_payload : Bytes → Sent → Sent
  unfolding write_all
  write_payload payload (s, err e) = (s, err e)
  write_payload payload (s, ok u) = write_all s payload

  unfoldable pub write_runner_envelope : w.State → ℕ → Bytes → Sent
  unfolding write_payload
  write_runner_envelope s message_type payload =
      if ltb runner_max_frame_bytes (length payload)
      then (s, err (encode payload_too_long))
      else write_payload payload (write_all s (message_type ∷ le_bytes 4 (length payload % 2 ^ 32)))

  unfoldable pub write_runner_generate : w.State → RunnerGenerate → Sent
  unfolding write_runner_envelope
  write_runner_generate s request = elim (encode_runner_generate request) [
    | err e ↦ (s, err (encode e))
    | ok payload ↦ write_runner_envelope s runner_message_generate payload
  ]

  unfoldable pub write_runner_control : w.State → ℕ → Sent
  unfolding write_runner_envelope
  write_runner_control s message_type =
      if message_type != runner_message_cancel
      then (s, err (encode (unsupported_control message_type)))
      else write_runner_envelope s message_type []

-- What is sent is what was sent before and a prefix of `bs`: the whole of it exactly on success.
abbrev pub Delivers :
    (w : Writer) → w.State → Bytes → w.State × Result WriteError (Unit {0}) → Type 0
Delivers w s bs (s', ok u) = w.sent s' ≡ w.sent s ++ bs
Delivers w s bs (s', err e) = (e ≢ out_of_fuel) × (n : ℕ) × (w.sent s' ≡ w.sent s ++ take n bs)
