-- ===== src/Wire/Text.antt =====
-- The bytes of a text. A Go string that comes from a request is text, and its bytes are UTF-8.
use Prim.Native.Char.{char, code, IsScalar}
use native.Mathlib.Decide.{dec_lt}
use yllmd.Base.{
  ℕ, suc, ◌+◌, ◌/◌, ◌%◌, ◌≤◌, ◌<◌, ◌≡◌, ◌⊎◌, refl, inl, inr, true, String, some, [], ◌∷◌, ◌++◌,
  arith, ltb, ap, ◌∙◌, Option, if◌then◌else◌,
}
use yllmd.Wire.Bytes.{Bytes}
use yllmd.Wire.Utf8.{Pending, valid_utf8, utf8_run, lead, start}

encode_code : ℕ → Bytes
encode_code c =
    if ltb c 0x80
    then c ∷ []
    else if ltb c 0x800
    then (0xc0 + c / 64) ∷ (0x80 + c % 64) ∷ []
    else if ltb c 0x10000
    then (0xe0 + c / 4096) ∷ (0x80 + c / 64 % 64) ∷ (0x80 + c % 64) ∷ []
    else (0xf0 + c / 262144) ∷ (0x80 + c / 4096 % 64) ∷ (0x80 + c / 64 % 64) ∷ (0x80 + c % 64) ∷ []

unfoldable pub utf8_bytes : String → Bytes
unfolding encode_code
utf8_bytes String.[] = []
utf8_bytes (String.◌∷◌ c s) = encode_code (code c) ++ utf8_bytes s

scalar_bounds : (n : ℕ) → IsScalar n → (n < 0xd800) ⊎ ((0xdfff < n) × (n < 0x110000))
scalar_bounds n h = ground arith

abbrev waiting : ℕ → ℕ → ℕ → Option Pending
waiting due low high = some (record { due = due; low = low; high = high })

-- A continuation byte between the bounds is taken.
run_continuation :
    (due low high b : ℕ) (rest : Bytes)
    → low ≤ b
    → b ≤ high
    → utf8_run (waiting (suc due) low high) (b ∷ rest) ≡ utf8_run (waiting due 0x80 0xbf) rest
unfolding utf8_run
run_continuation due low high b rest l h = ground arith

run_lead : (b : ℕ) (rest : Bytes) → utf8_run (some start) (b ∷ rest) ≡ utf8_run (lead b) rest
unfolding utf8_run
run_lead b rest = refl

run_one :
    (n : ℕ) (rest : Bytes)
    → n < 0x80
    → utf8_run (some start) (n ∷ rest) ≡ utf8_run (some start) rest
run_one n rest h = rw run_lead (ap (λ (p : Option Pending). utf8_run p rest) lead_one)
  where
    lead_one : lead n ≡ some start
    lead_one = unfold lead in ground arith

run_two :
    (n : ℕ) (rest : Bytes)
    → 0x80 ≤ n
    → n < 0x800
    → utf8_run (some start) ((0xc0 + n / 64) ∷ (0x80 + n % 64) ∷ rest) ≡ utf8_run (some start) rest
run_two n rest l h =
    let lead_two : lead (0xc0 + n / 64) ≡ waiting 1 0x80 0xbf = unfold lead in ground arith in
    rw (run_lead, lead_two)
      (run_continuation 0 0x80 0xbf (0x80 + n % 64) rest (omega arith) (omega arith))

-- Three bytes, the first bounding the second.
run_three :
    (low high n : ℕ) (rest : Bytes)
    → lead (0xe0 + n / 4096) ≡ waiting 2 low high
    → low ≤ 0x80 + n / 64 % 64
    → 0x80 + n / 64 % 64 ≤ high
    → utf8_run (some start) ((0xe0 + n / 4096) ∷ (0x80 + n / 64 % 64) ∷ (0x80 + n % 64) ∷ rest)
      ≡ utf8_run (some start) rest
run_three low high n rest first l h =
    rw (run_lead, first, run_continuation 1 low high (0x80 + n / 64 % 64) _ l h)
      (run_continuation 0 0x80 0xbf (0x80 + n % 64) rest (omega arith) (omega arith))

-- Four bytes, the first bounding the second.
run_four :
    (low high n : ℕ) (rest : Bytes)
    → lead (0xf0 + n / 262144) ≡ waiting 3 low high
    → low ≤ 0x80 + n / 4096 % 64
    → 0x80 + n / 4096 % 64 ≤ high
    → utf8_run (some start) (
        (0xf0 + n / 262144)
        ∷ (0x80 + n / 4096 % 64)
        ∷ (0x80 + n / 64 % 64)
        ∷ (0x80 + n % 64)
        ∷ rest)
      ≡ utf8_run (some start) rest
run_four low high n rest first l h =
    rw
      (
        run_lead,
        first,
        run_continuation 2 low high (0x80 + n / 4096 % 64) _ l h,
        run_continuation 1 0x80 0xbf (0x80 + n / 64 % 64) _ (omega arith) (omega arith),
      )
      (run_continuation 0 0x80 0xbf (0x80 + n % 64) rest (omega arith) (omega arith))

run_basic_plane :
    (n : ℕ) (rest : Bytes)
    → 0x800 ≤ n
    → n < 0x10000
    → (n < 0xd800) ⊎ (0xdfff < n)
    → utf8_run (some start) ((0xe0 + n / 4096) ∷ (0x80 + n / 64 % 64) ∷ (0x80 + n % 64) ∷ rest)
      ≡ utf8_run (some start) rest
run_basic_plane n rest l h (inr s) =
    run_three 0x80 0xbf n rest (unfold lead in ground arith) (omega arith) (omega arith)
run_basic_plane n rest l h (inl s) = elim (dec_lt n 0x1000) [
  | yes below ↦ run_three 0xa0 0xbf n rest (unfold lead in ground arith) (omega arith) (omega arith)
  | no above ↦ elim (dec_lt n 0xd000) [
    | yes before ↦
        run_three 0x80 0xbf n rest (unfold lead in ground arith) (omega arith) (omega arith)
    | no after ↦
        run_three 0x80 0x9f n rest (unfold lead in ground arith) (omega arith) (omega arith)
  ]
]

run_other_planes :
    (n : ℕ) (rest : Bytes)
    → 0x10000 ≤ n
    → n < 0x110000
    → utf8_run (some start) (
        (0xf0 + n / 262144)
        ∷ (0x80 + n / 4096 % 64)
        ∷ (0x80 + n / 64 % 64)
        ∷ (0x80 + n % 64)
        ∷ rest)
      ≡ utf8_run (some start) rest
run_other_planes n rest l h = elim (dec_lt n 0x40000) [
  | yes below ↦ run_four 0x90 0xbf n rest (unfold lead in ground arith) (omega arith) (omega arith)
  | no above ↦ elim (dec_lt n 0x100000) [
    | yes before ↦
        run_four 0x80 0xbf n rest (unfold lead in ground arith) (omega arith) (omega arith)
    | no after ↦ run_four 0x80 0x8f n rest (unfold lead in ground arith) (omega arith) (omega arith)
  ]
]

run_code :
    (n : ℕ) (rest : Bytes)
    → (n < 0xd800) ⊎ ((0xdfff < n) × (n < 0x110000))
    → utf8_run (some start) (encode_code n ++ rest) ≡ utf8_run (some start) rest
unfolding encode_code
run_code n rest h =
    ground (arith, run_one n rest, run_two n rest, run_basic_plane n rest, run_other_planes n rest)

utf8_run-utf8_bytes : (s : String) → utf8_run (some start) (utf8_bytes s) ≡ true
unfolding utf8_bytes
utf8_run-utf8_bytes String.[] = unfold utf8_run in refl
utf8_run-utf8_bytes (String.◌∷◌ (char n p) s) =
    run_code n (utf8_bytes s) (scalar_bounds n p) ∙ utf8_run-utf8_bytes s

-- The bytes of any text are valid UTF-8.
pub valid_utf8-utf8_bytes : (s : String) → valid_utf8 (utf8_bytes s) ≡ true
unfolding valid_utf8
valid_utf8-utf8_bytes s = utf8_run-utf8_bytes s
