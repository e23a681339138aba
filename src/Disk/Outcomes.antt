-- ===== src/Disk/Outcomes.antt =====
-- What an action does with the files as they are: as they say, or a fault.
use yllmd.Base.{
  ℕ, Bool, true, false, List, [], ◌∷◌, Result, ok, err, ◌≡◌, refl, ap, sym, ◌∙◌, ◌⊎◌, inl, inr,
  if◌then◌else◌,
}
use mathlib.Core.Path.{subst}
use yllmd.Disk.Paths.{NodePath}
use yllmd.Disk.Actions.{
  IoError, failed, Fault, fine, fails, breaks, Disk, Io, pure, raise, refuse, ◌>>=◌, after, lift,
  reworded, try, draw, faulty,
}
use yllmd.Disk.{find, target_of, bytes_of, read_link, read_file}
use yllmd.Disk.Returned.{Returns, failed-Returns}
use yllmd.Disk.Spares.{Spares}

pub refuse-Returns :
    {E : Type 0} (b : Bool) (e : E) (d : Disk) {d' : Disk}
    → Returns (refuse b e) d tt d'
    → (b ≡ false) × (d ≡ d')
unfolding refuse pure raise
refuse-Returns true e d h = failed-Returns e d h
refuse-Returns false e d h = (refl, ap (λ r. r.1) h)

pub raise-Returns :
    {E A C : Type 0} (e : E) (d : Disk) {a : A} {d' : Disk} → Returns (raise {A = A} e) d a d' → C
unfolding raise
raise-Returns e d h = failed-Returns e d h

-- A branch that was chosen.
pub if-Returns :
    {E A : Type 0} (b c : Bool) (m k : Io E A) (d : Disk) {a : A} {d' : Disk}
    → b ≡ c
    → Returns (if b then m else k) d a d'
    → Returns (if c then m else k) d a d'
if-Returns b c m k d {a = a} {d' = d'} same h =
    subst (λ x. Returns (if x then m else k) d a d') same h

pub pure-Returns :
    {E A : Type 0} (a : A) (d : Disk) {b : A} {d' : Disk}
    → Returns (pure {E = E} a) d b d'
    → (a ≡ b) × (d ≡ d')
unfolding pure
pure-Returns {E = E} {A = A} a d {b = b} h =
    let first : ◌≡◌ {A = Result E A} (ok a) (ok b) = ap (λ o. o.0) h in (cc, ap (λ o. o.1) h)

pub try-Returns :
    {E F A : Type 0} (m : Io E A) (d : Disk) {r : Result E A} {d' : Disk}
    → Returns (try {F = F} m) d r d'
    → ((m d).0 ≡ r) × ((m d).1 ≡ d')
unfolding try
try-Returns {F = F} m d {r = r} h =
    let first : ◌≡◌ {A = Result F (Result _ _)} (ok (m d).0) (ok r) = ap (λ o. o.0) h in
    (cc, ap (λ o. o.1) h)

module _ {A : Type 0} where
  draw-outcome :
      (faults : List Fault) (run : Io IoError A) (broken : ℕ → Disk → Disk) (d : Disk)
      → ((fs : List Fault) × (draw faults run broken d ≡ run (record d { faults = fs })))
        ⊎ ((draw faults run broken d).0 ≡ err failed)
  unfolding draw
  draw-outcome [] run broken d = inl (d.faults, refl)
  draw-outcome (fine ∷ fs) run broken d = inl (fs, refl)
  draw-outcome (fails ∷ fs) run broken d = inr refl
  draw-outcome (breaks n ∷ fs) run broken d = inr refl

  -- An operation that only looks.
  looks-outcome :
      (look : Disk → Result IoError A) (d : Disk)
      → ((fs : List Fault) → look (record d { faults = fs }) ≡ look d)
      → ((faulty (λ d. (look d, d)) (λ n d. d) d).0 ≡ look d)
        ⊎ ((faulty (λ d. (look d, d)) (λ n d. d) d).0 ≡ err failed)
  unfolding faulty
  looks-outcome look d steady = elim (draw-outcome d.faults (λ d. (look d, d)) (λ n d. d) d) [
    | inl (fs, ran) ↦ inl (ap (λ r. r.0) ran ∙ steady fs)
    | inr broke ↦ inr broke
  ]

pub read_link-outcome :
    (p : NodePath) (d : Disk)
    → ((read_link p d).0 ≡ target_of (find p d.files)) ⊎ ((read_link p d).0 ≡ err failed)
unfolding read_link
read_link-outcome p d = looks-outcome (λ d. target_of (find p d.files)) d (λ fs. refl)

pub read_file-outcome :
    (p : NodePath) (d : Disk)
    → ((read_file p d).0 ≡ bytes_of (find p d.files)) ⊎ ((read_file p d).0 ≡ err failed)
unfolding read_file
read_file-outcome p d = looks-outcome (λ d. bytes_of (find p d.files)) d (λ fs. refl)

-- `return f(a), nil` after an action.
module _ {E A B : Type 0} where
  pub map-ok :
      (f : A → B) (m : Io E A) (d : Disk) {a : A}
      → (m d).0 ≡ ok a
      → ((m >>= λ x. pure (f x)) d).0 ≡ ok (f a)
  unfolding ◌>>=◌ pure
  map-ok f m d h = ap (λ r. (after (λ x. pure (f x)) r (m d).1).0) h

  pub map-err :
      (k : A → Io E B) (m : Io E A) (d : Disk) {e : E} → (m d).0 ≡ err e → ((m >>= k) d).0 ≡ err e
  unfolding ◌>>=◌
  map-err k m d h = ap (λ r. (after k r (m d).1).0) h

  pub bind-ok :
      (k : A → Io E B) (m : Io E A) (d : Disk) {a : A} {o : Result E B}
      → (m d).0 ≡ ok a
      → ((d' : Disk) → (k a d').0 ≡ o)
      → ((m >>= k) d).0 ≡ o
  unfolding ◌>>=◌
  bind-ok k m d h then_gives = ap (λ r. (after k r (m d).1).0) h ∙ then_gives (m d).1

module _ {E F A : Type 0} where
  pub lift-ok : (f : E → F) (m : Io E A) (d : Disk) {a : A} → (m d).0 ≡ ok a → (lift f m d).0 ≡ ok a
  unfolding lift
  lift-ok f m d h = ap (reworded f) h

  pub lift-err :
      (f : E → F) (m : Io E A) (d : Disk) {e : E} → (m d).0 ≡ err e → (lift f m d).0 ≡ err (f e)
  unfolding lift
  lift-err f m d h = ap (reworded f) h

pub Spares-Returns :
    {q : NodePath} {E A : Type 0} (m : Io E A) (d : Disk) {a : A} {d' : Disk}
    → Spares q m
    → Returns m d a d'
    → find q d'.files ≡ find q d.files
Spares-Returns {q = q} m d sm h = sym (ap (λ r. find q r.1.files) h) ∙ sm.at d
