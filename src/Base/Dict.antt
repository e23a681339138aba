-- ===== src/Base/Dict.antt =====
-- A Go map as an association list: lookup, insertion that replaces, and deletion of a key.
use mathlib.Core.Path.{◌≡◌}
use mathlib.Core.Bool.{Bool, false, ◌||◌}
use mathlib.Core.Option.{Option, none, some}
use mathlib.Core.List.{List, [], ◌∷◌}
use Prim.Native.String.{String}
use native.Mathlib.Omega.{arith}
use text.Mathlib.TextEquality.{eq_iff}
use yllmd.Base.Tests.{◌==◌, string_eq, if◌then◌else◌}

abbrev pub Dict {ℓ} : Type ℓ → Type ℓ
Dict V = List (String × V)

module _ {ℓ} {V : Type ℓ} where
  unfoldable pub lookup : String → Dict V → Option V
  lookup key [] = none
  lookup key ((k, value) ∷ rest) = if k == key then some value else lookup key rest

  unfoldable pub has_key : String → Dict V → Bool
  has_key key [] = false
  has_key key ((k, value) ∷ rest) = (k == key) || has_key key rest

  unfoldable pub erase : String → Dict V → Dict V
  erase key [] = []
  erase key ((k, value) ∷ rest) =
      let others = erase key rest in if k == key then others else (k, value) ∷ others

  unfoldable pub insert : String → V → Dict V → Dict V
  insert key new [] = (key, new) ∷ []
  insert key new ((k, old) ∷ rest) =
      let others = insert key new rest in if k == key then (key, new) ∷ rest else (k, old) ∷ others

  pub lookup-erase :
      (gone key : String) (dict : Dict V)
      → lookup key (erase gone dict) ≡ (if gone == key then none else lookup key dict)
  unfolding lookup erase
  lookup-erase gone key [] = ground arith
  lookup-erase gone key ((k, value) ∷ rest) =
      ground (arith, lookup-erase gone key rest, eq_iff gone key, eq_iff k key, eq_iff k gone)
