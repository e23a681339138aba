-- ===== src/Wire/Utf8.antt =====
-- `utf8.ValidString` of Go's standard library, as an automaton over the bytes: how many continuation
-- bytes are still due, and between which bounds the next one lies.
use yllmd.Base.{
  ℕ, zero, suc, ◌≡◌, refl, Bool, true, false, ◌&&◌, Option, none, some, [], ◌∷◌, ltb, leb, ◌==◌,
  nat_eq, if◌then◌else◌,
}
use yllmd.Wire.Bytes.{Bytes}

pub record Pending : Type 0 where
  pub due : ℕ
  pub low : ℕ
  pub high : ℕ

abbrev pub start : Pending
start = record { due = 0; low = 0x80; high = 0xbf }

abbrev expect : ℕ → ℕ → ℕ → Option Pending
expect due low high = some (record { due = due; low = low; high = high })

-- What a first byte announces; none for a byte that starts no character.
unfoldable pub lead : ℕ → Option Pending
lead b =
    if ltb b 0x80
    then some start
    else if ltb b 0xc2
    then none
    else if ltb b 0xe0
    then expect 1 0x80 0xbf
    else if b == 0xe0
    then expect 2 0xa0 0xbf
    else if b == 0xed
    then expect 2 0x80 0x9f
    else if ltb b 0xf0
    then expect 2 0x80 0xbf
    else if b == 0xf0
    then expect 3 0x90 0xbf
    else if ltb b 0xf4
    then expect 3 0x80 0xbf
    else if b == 0xf4
    then expect 3 0x80 0x8f
    else none

advance_due : ℕ → Pending → ℕ → Option Pending
unfolding lead
advance_due zero p b = lead b
advance_due (suc k) p b = if leb p.low b && leb b p.high then expect k 0x80 0xbf else none

unfoldable pub utf8_run : Option Pending → Bytes → Bool
unfolding advance_due
utf8_run none bs = false
utf8_run (some p) [] = p.due == 0
utf8_run (some p) (b ∷ bs) = utf8_run (advance_due p.due p b) bs

unfoldable pub valid_utf8 : Bytes → Bool
unfolding utf8_run
valid_utf8 bs = utf8_run (some start) bs

utf8_test :
    (valid_utf8 (0x61 ∷ 0xc3 ∷ 0xa9 ∷ 0xf0 ∷ 0x9f ∷ 0x98 ∷ 0x80 ∷ []) ≡ true)
    × (valid_utf8 (0xc0 ∷ 0x80 ∷ []) ≡ false)
    × (valid_utf8 (0xed ∷ 0xa0 ∷ 0x80 ∷ []) ≡ false)
    × (valid_utf8 (0xe2 ∷ 0x82 ∷ []) ≡ false)
unfolding valid_utf8
utf8_test = (refl, refl, refl, refl)

valid_utf8-empty : valid_utf8 [] ≡ true
unfolding valid_utf8
valid_utf8-empty = refl
