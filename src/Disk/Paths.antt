-- ===== src/Disk/Paths.antt =====
-- Paths as lists of components: prefixes, and a path moved from one place to another.
use yllmd.Base.{
  Bool, true, false, ◌&&◌, String, Option, none, some, List, [], ◌∷◌, ◌++◌, ◌≡◌, ◌↔◌, refl, arith,
  Eq, ◌==◌, string_eq, if◌then◌else◌, Option-cases, Bool-cases, inl, inr, ap, ◌∙◌, sym,
}
use text.Mathlib.TextEquality.{eq_iff}

abbrev pub NodePath : Type 0
NodePath = List String

abbrev pub same_path : NodePath → NodePath → Bool
same_path [] [] = true
same_path (a ∷ p) (b ∷ q) = (a == b) && same_path p q
same_path _ _ = false

pub same_path_iff : (p q : NodePath) → (same_path p q ≡ true) ↔ (p ≡ q)
same_path_iff [] [] = (λ h. refl, λ h. refl)
same_path_iff [] (b ∷ q) = (λ h. cc, λ h. cc)
same_path_iff (a ∷ p) [] = (λ h. cc, λ h. cc)
same_path_iff (a ∷ p) (b ∷ q) = (
  λ h. ground (arith, eq_iff a b, same_path_iff p q),
  λ h. ground (arith, eq_iff a b, same_path_iff p q),
)

instance abbrev pub path_eq : Eq NodePath
path_eq = record { same = same_path; same_iff = same_path_iff }

-- What follows a prefix.
unfoldable pub strip : NodePath → NodePath → Option NodePath
strip [] q = some q
strip (a ∷ p) [] = none
strip (a ∷ p) (b ∷ q) = if a == b then strip p q else none

abbrev pub is_under : NodePath → NodePath → Bool
is_under p q = elim (strip p q) [ some r ↦ true | none ↦ false ]

unfoldable pub relabel : NodePath → NodePath → NodePath → NodePath
unfolding strip
relabel p p' q = elim (strip p q) [ some r ↦ p' ++ r | none ↦ q ]

abbrev pub parent : NodePath → NodePath
parent [] = []
parent (a ∷ []) = []
parent (a ∷ b ∷ p) = a ∷ parent (b ∷ p)

-- The name of `q` in the folder `p`.
unfoldable pub child_of : NodePath → NodePath → Option String
unfolding strip
child_of p q = elim (strip p q) [ some (name ∷ []) ↦ some name | _ ↦ none ]

pub strip-append : (p r : NodePath) → strip p (p ++ r) ≡ some r
unfolding strip
strip-append [] r = refl
strip-append (a ∷ p) r = ground (arith, eq_iff a a, strip-append p r)

pub append-strip : (p q r : NodePath) → strip p q ≡ some r → p ++ r ≡ q
unfolding strip
append-strip [] q r h = ground arith
append-strip (a ∷ p) [] r h = cc
append-strip (a ∷ p) (b ∷ q) r h = ground (arith, eq_iff a b, append-strip p q r)

pub strip-append-append : (b p q : NodePath) → strip (b ++ p) (b ++ q) ≡ strip p q
unfolding strip
strip-append-append [] p q = refl
strip-append-append (a ∷ b) p q = ground (arith, eq_iff a a, strip-append-append b p q)

pub is_under_self : (p r : NodePath) → is_under p (p ++ r) ≡ true
is_under_self p r = ground (arith, strip-append p r)

-- What is outside a folder is outside all that stands in it.
pub outside-append : (p r q : NodePath) → is_under p q ≡ false → is_under (p ++ r) q ≡ false
unfolding strip
outside-append [] r q h = cc
outside-append (a ∷ p) r [] h = refl
outside-append (a ∷ p) r (b ∷ q) h = ground (arith, outside-append p r q)

pub outside-prefix : (q p r : NodePath) → is_under q (p ++ r) ≡ false → is_under q p ≡ false
unfolding strip
outside-prefix [] p r h = cc
outside-prefix (a ∷ q) [] r h = refl
outside-prefix (a ∷ q) (b ∷ p) r h = ground (arith, outside-prefix q p r)

pub outside-apart : (p q : NodePath) → is_under p q ≡ false → (p == q) ≡ false
unfolding strip
outside-apart [] q h = cc
outside-apart (a ∷ p) [] h = refl
outside-apart (a ∷ p) (b ∷ q) h = ground (arith, outside-apart p q)

append-injective : (p r r' : NodePath) → p ++ r ≡ p ++ r' → r ≡ r'
append-injective p r r' h =
    let e = strip-append p r in let e' = strip-append p r' in ground (arith, ap (strip p) h)

same_path-append : (p r r' : NodePath) → same_path (p ++ r) (p ++ r') ≡ same_path r r'
same_path-append [] r r' = refl
same_path-append (a ∷ p) r r' = ground (arith, eq_iff a a, same_path-append p r r')

-- A path under a folder is not one outside it.
outside-same : (p r q : NodePath) → is_under p q ≡ false → same_path (p ++ r) q ≡ false
outside-same p r q h = elim (Bool-cases (same_path (p ++ r) q)) [
  | inl same ↦
      let here = is_under_self p r in
      let moved : is_under p q ≡ true =
        ap (is_under p) (sym ((same_path_iff (p ++ r) q).0 same)) ∙ here in
      cc
  | inr apart ↦ apart
]

pub same_path_sym : (p q : NodePath) → same_path p q ≡ same_path q p
same_path_sym [] [] = refl
same_path_sym [] (b ∷ q) = refl
same_path_sym (a ∷ p) [] = refl
same_path_sym (a ∷ p) (b ∷ q) = ground (arith, eq_iff a b, eq_iff b a, same_path_sym p q)

relabel-away : (p p' k : NodePath) → strip p k ≡ none → relabel p p' k ≡ k
unfolding relabel
relabel-away p p' k h = ground arith

relabel-under : (p p' k r : NodePath) → strip p k ≡ some r → relabel p p' k ≡ p' ++ r
unfolding relabel
relabel-under p p' k r h = ground arith

pub relabel-outside :
    (p p' q k : NodePath)
    → is_under p q ≡ false
    → is_under p' q ≡ false
    → same_path (relabel p p' k) q ≡ same_path k q
relabel-outside p p' q k h h' = elim (Option-cases (strip p k)) [
  | inl out ↦ rw (relabel-away p p' k out) refl
  | inr (r, under) ↦
      let k_is = append-strip p k r under in
      rw (relabel-under p p' k r under, sym k_is)
        (outside-same p' r q h' ∙ sym (outside-same p r q h))
]

pub relabel-inside :
    (p p' r k : NodePath)
    → is_under p' k ≡ false
    → same_path (relabel p p' k) (p' ++ r) ≡ same_path k (p ++ r)
relabel-inside p p' r k h = elim (Option-cases (strip p k)) [
  | inl out ↦
      let away : is_under p k ≡ false = ground arith in
      rw (relabel-away p p' k out, same_path_sym k (p' ++ r), same_path_sym k (p ++ r))
        (outside-same p' r k h ∙ sym (outside-same p r k away))
  | inr (r', under) ↦
      let k_is = append-strip p k r' under in
      rw (relabel-under p p' k r' under, sym k_is)
        (same_path-append p' r' r ∙ sym (same_path-append p r' r))
]

-- Two entries of one folder, and what stands in them.
pub siblings-outside :
    (dir : NodePath) (a b : String) (r r' : NodePath)
    → (a == b) ≡ false
    → is_under (dir ++ (a ∷ r)) (dir ++ (b ∷ r')) ≡ false
unfolding strip
siblings-outside dir a b r r' h =
    let inner : strip (a ∷ r) (b ∷ r') ≡ none = ground arith in
    ground (arith, strip-append-append dir (a ∷ r) (b ∷ r'))

-- A folder is not in its own entries.
pub entry-above :
    (dir : NodePath) (a : String) (r : NodePath) → is_under (dir ++ (a ∷ r)) dir ≡ false
unfolding strip
entry-above [] a r = refl
entry-above (b ∷ dir) a r = ground (arith, eq_iff b b, entry-above dir a r)
