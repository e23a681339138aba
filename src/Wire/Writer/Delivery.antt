-- ===== src/Wire/Writer/Delivery.antt =====
-- internal/providers/local/runner_protocol.go: what has been sent when a write loop, an envelope or a
-- message returns.
use mathlib.Core.Path.{subst}
use mathlib.Core.List.{append-nil, append_assoc}
use native.Mathlib.Nat.{suc-add}
use yllmd.Base.{
  ℕ, zero, suc, ◌+◌, ◌-◌, ◌%◌, ◌^◌, ◌≤◌, ◌≡◌, refl, ap, ◌∙◌, sym, Bool-cases, inl, inr, [], ◌∷◌,
  ◌++◌, arith, length, take, drop, take-append, drop-append, take-append-drop, Result, ok, err, ltb,
  ◌==◌, nat_eq,
}
use yllmd.Wire.Bytes.{Bytes, le_bytes}
use yllmd.Wire.Generate.{RunnerGenerate, generate_payload}
use yllmd.Wire.Generate.Limits.{IsEncodable, encode_runner_generate-ok_iff}
use yllmd.Wire.Writer.{
  Writer, IsLawful, WriteError, write_loop, write_all, write_payload, write_runner_envelope,
  write_runner_generate, Delivers, runner_message_generate,
}

take-nil : (n : ℕ) → ◌≡◌ {A = Bytes} (take n []) []
take-nil zero = refl
take-nil (suc n) = refl

take-add : (n m : ℕ) (xs : Bytes) → take n xs ++ take m (drop n xs) ≡ take (n + m) xs
take-add zero m xs = ground arith
take-add (suc n) zero [] = sym (take-nil (suc n + zero))
take-add (suc n) (suc m) [] = sym (take-nil (suc n + suc m))
take-add (suc n) m (x ∷ xs) = rw (suc-add n m) (ap (◌∷◌ x) (take-add n m xs))

length-drop_le : (n : ℕ) (xs : Bytes) → length (drop n xs) ≡ length xs - n
length-drop_le zero xs = omega arith
length-drop_le (suc n) [] = omega arith
length-drop_le (suc n) (x ∷ xs) = omega (arith, length-drop_le n xs)

take_within : (n : ℕ) (xs ys : Bytes) → (m : ℕ) × (take n xs ≡ take m (xs ++ ys))
take_within zero xs ys = (0, refl)
take_within (suc n) [] ys = (0, refl)
take_within (suc n) (x ∷ xs) ys = let (m, same) = take_within n xs ys in (suc m, ap (◌∷◌ x) same)

-- The bytes of one message: its type, the length of its payload, and the payload.
pub envelope : ℕ → Bytes → Bytes
envelope message_type payload = (message_type ∷ le_bytes 4 (length payload % 2 ^ 32)) ++ payload

module _ (w : Writer) where
  Delivers-step :
      (s s' : w.State) (n : ℕ) (bs : Bytes) (r : w.State × Result WriteError (Unit {0}))
      → w.sent s' ≡ w.sent s ++ take n bs
      → Delivers w s' (drop n bs) r
      → Delivers w s bs r
  Delivers-step s s' n bs (t, ok u) e d =
      d
      ∙ ap (λ (sent : Bytes). sent ++ drop n bs) e
      ∙ append_assoc (w.sent s) (take n bs) (drop n bs)
      ∙ ap (◌++◌ (w.sent s)) (take-append-drop n bs)
  Delivers-step s s' n bs (t, err x) e (known, m, d) = (
    known,
    n + m,
    d
        ∙ ap (λ (sent : Bytes). sent ++ take m (drop n bs)) e
        ∙ append_assoc (w.sent s) (take n bs) (take m (drop n bs))
        ∙ ap (◌++◌ (w.sent s)) (take-add n m bs),
  )

  write_loop-Delivers :
      IsLawful w
      → (fuel : ℕ) (s : w.State) (bs : Bytes) → length bs ≤ fuel
      → Delivers w s bs (write_loop w fuel s bs)
  unfolding write_loop
  write_loop-Delivers law fuel s [] h = sym (append-nil _)
  write_loop-Delivers law zero s (b ∷ bs) h = absurd (omega arith)
  write_loop-Delivers law (suc fuel) s (b ∷ bs) h =
      let (s', written, failed) = w.write s (b ∷ bs) in
      elim (Bool-cases failed) [
        | inl bad ↦ rw bad ((λ e. cc), written, law.sends s (b ∷ bs))
        | inr fine ↦ rw fine (elim (Bool-cases (written == 0)) [
          | inl stuck ↦ rw stuck ((λ e. cc), written, law.sends s (b ∷ bs))
          | inr moved ↦ rw moved (
              Delivers-step s s' written (b ∷ bs) _ (law.sends s (b ∷ bs)) (
                write_loop-Delivers law fuel s' (drop written (b ∷ bs))
                  (ground (arith, length-drop_le written (b ∷ bs)))))
        ])
      ]

  -- Over a lawful writer `writeAll` sends all of its data or fails with an error of the writer after
  -- sending a prefix; the fuel never runs out.
  pub write_all-Delivers :
      IsLawful w → (s : w.State) (bs : Bytes) → Delivers w s bs (write_all w s bs)
  unfolding write_all
  write_all-Delivers law s bs = write_loop-Delivers law (length bs) s bs (omega arith)

  write_payload-Delivers :
      IsLawful w
      → (s : w.State) (header payload : Bytes) (r : w.State × Result WriteError (Unit {0}))
      → Delivers w s header r
      → Delivers w s (header ++ payload) (write_payload w payload r)
  unfolding write_payload
  write_payload-Delivers law s header payload (s', ok u) d =
      Delivers-step s s' (length header) (header ++ payload) (write_all w s' payload)
        (d ∙ ap (◌++◌ (w.sent s)) (sym (take-append header payload)))
        (subst (λ bs. Delivers w s' bs (write_all w s' payload)) (sym (drop-append header payload))
          (write_all-Delivers law s' payload))
  write_payload-Delivers law s header payload (s', err e) (known, n, d) =
      let (m, same) = take_within n header payload in (known, m, d ∙ ap (◌++◌ (w.sent s)) same)

  write_runner_envelope-Delivers :
      IsLawful w
      → (s : w.State) (message_type : ℕ) (payload : Bytes)
      → Delivers w s
          (envelope message_type payload)
          (write_runner_envelope w s message_type payload)
  unfolding write_runner_envelope envelope
  write_runner_envelope-Delivers law s message_type payload =
      let header = message_type ∷ le_bytes 4 (length payload % 2 ^ 32) in
      elim (Bool-cases (ltb 33554432 (length payload))) [
        | inl long ↦ rw long ((λ e. cc), 0, sym (append-nil _))
        | inr fits ↦ rw fits (
            write_payload-Delivers law s header payload (write_all w s header)
              (write_all-Delivers law s header))
      ]

  -- Sending an encodable Generate message over a lawful writer: on success exactly the envelope of
  -- its payload has gone out, and on an error, which is not the end of the fuel, only a prefix of it.
  pub write_runner_generate-Delivers :
      IsLawful w
      → (s : w.State) (r : RunnerGenerate) → IsEncodable r
      → Delivers w s
          (envelope runner_message_generate (generate_payload r))
          (write_runner_generate w s r)
  unfolding write_runner_generate
  write_runner_generate-Delivers law s r v =
      rw ((encode_runner_generate-ok_iff r).1 v, write_runner_generate)
        (write_runner_envelope-Delivers law s runner_message_generate (generate_payload r))
