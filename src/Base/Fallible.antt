-- ===== src/Base/Fallible.antt =====
-- A Go function that returns a value and an error. `reject b e` is `if b { return e }`.
use mathlib.Core.Path.{◌≡◌, refl}
use mathlib.Core.Bool.{Bool, true, false}
use mathlib.Core.Logic.{◌⊎◌, ◌↔◌, inl, inr}

pub data Result {ℓ} (E : Type 0) (A : Type ℓ) : Type ℓ where
  ok : A → Result E A
  err : E → Result E A

infixl 5 ◌>>=◌ ◌>>◌
abbrev pub ◌>>=◌ {ℓ κ} :
    {E : Type 0} {A : Type ℓ} {B : Type κ} → Result E A → (A → Result E B) → Result E B
ok a >>= f = f a
err e >>= f = err e

abbrev pub ◌>>◌ {ℓ} : {E : Type 0} {B : Type ℓ} → Result E (Unit {0}) → Result E B → Result E B
m >> k = m >>= λ _. k

abbrev pub reject : {E : Type 0} → Bool → E → Result E (Unit {0})
reject true e = err e
reject false e = ok tt

-- `err == nil`
abbrev pub is_ok {ℓ} : {E : Type 0} {A : Type ℓ} → Result E A → Bool
is_ok (ok a) = true
is_ok (err e) = false

pub Result-cases {ℓ} :
    {E : Type 0} {A : Type ℓ} (r : Result E A) → ((a : A) × (r ≡ ok a)) ⊎ ((e : E) × (r ≡ err e))
Result-cases (ok a) = inl (a, refl)
Result-cases (err e) = inr (e, refl)

-- A chain that returns a value has returned one at each step.
pub >>=-eq-ok {ℓ κ} :
    {E : Type 0} {A : Type ℓ} {B : Type κ} (first : Result E A) (then_do : A → Result E B)
    {result : B}
    → (first >>= then_do) ≡ ok result
    → (value : A) × (first ≡ ok value) × (then_do value ≡ ok result)
>>=-eq-ok (err e) then_do returned = cc
>>=-eq-ok (ok value) then_do returned = (value, refl, returned)

pub >>-eq-ok {ℓ} :
    {E : Type 0} {B : Type ℓ} (first : Result E (Unit {0})) (k : Result E B) {result : B}
    → (first >> k) ≡ ok result
    → k ≡ ok result
>>-eq-ok (ok _) k returned = returned
>>-eq-ok (err e) k returned = cc

pub reject-eq-ok :
    {E : Type 0} (b : Bool) (e : E) → ◌≡◌ {A = Result E (Unit {0})} (reject b e) (ok tt) → b ≡ false
reject-eq-ok true e h = cc
reject-eq-ok false e h = refl

-- A guarded step succeeds exactly when the guard lets it pass and the rest succeeds.
pub reject-then {ℓ} :
    {E : Type 0} {B : Type ℓ} (b : Bool) (e : E) (k : Result E B) {v : B}
    → ((reject b e >> k) ≡ ok v) ↔ ((b ≡ false) × (k ≡ ok v))
reject-then true e k = (λ h. cc, λ h. cc)
reject-then false e k = (λ h. (refl, h), λ h. h.1)
