-- ===== src/Wire/Generate/Limits.antt =====
-- internal/providers/local/runner_protocol.go: when the Generate encoder accepts a request, said without its
-- loop and its order of tests.
use yllmd.Base.{
  ℕ, suc, ◌+◌, ◌*◌, ◌%◌, ◌^◌, ◌++◌, ◌≤◌, ◌<◌, ◌≡◌, ◌↔◌, refl, true, List, [], ◌∷◌, ok, arith,
  length, length-append, All,
}
use yllmd.Wire.Bytes.{Bytes, le_bytes, length-le_bytes}
use yllmd.Wire.Utf8.{valid_utf8}
use yllmd.Wire.Generate.{
  RunnerGenerate, check_stops, encode_stops, generate_payload, encode_runner_generate,
}

abbrev pub total_bytes : List Bytes → ℕ
total_bytes [] = 0
total_bytes (stop ∷ stops) = length stop + total_bytes stops

-- A stop string that the runner accepts: some bytes of UTF-8.
abbrev pub IsStop : Bytes → Type 0
IsStop stop = (0 < length stop) × (valid_utf8 stop ≡ true)

pub record IsEncodable (r : RunnerGenerate) : Type 0 where
  pub mode : r.tokenization_mode ≤ 1
  pub prompt_utf8 : valid_utf8 r.prompt ≡ true
  pub prompt_short : length r.prompt ≤ 16777216
  pub stops_few : length r.stops ≤ 64
  pub stops_valid : All IsStop r.stops
  pub stops_short : total_bytes r.stops ≤ 65536

pub check_stops_sound :
    (i total : ℕ) (stops : List Bytes)
    → total ≤ 65536
    → check_stops i total stops ≡ ok tt
    → All IsStop stops × (total + total_bytes stops ≤ 65536)
unfolding check_stops
check_stops_sound i total [] b h = (tt, omega arith)
check_stops_sound i total (stop ∷ stops) b h =
    ground (arith, check_stops_sound (suc i) (total + length stop) stops)

pub check_stops_complete :
    (i total : ℕ) (stops : List Bytes)
    → All IsStop stops
    → total + total_bytes stops ≤ 65536
    → check_stops i total stops ≡ ok tt
unfolding check_stops
check_stops_complete i total [] v b = refl
check_stops_complete i total (stop ∷ stops) v b =
    ground (arith, v.0, check_stops_complete (suc i) (total + length stop) stops)

length-encode_stops :
    (stops : List Bytes) → length (encode_stops stops) ≡ 4 * length stops + total_bytes stops
unfolding encode_stops
length-encode_stops [] = refl
length-encode_stops (stop ∷ stops) = omega (
  arith,
  length-append {0} (le_bytes 4 (length stop % 2 ^ 32)) (stop ++ encode_stops stops),
  length-append {0} stop (encode_stops stops),
  length-le_bytes 4 (length stop % 2 ^ 32),
  length-encode_stops stops,
)

pub length-generate_payload :
    (r : RunnerGenerate)
    → length (generate_payload r) ≡ 58 + 4 * length r.stops + total_bytes r.stops + length r.prompt
unfolding generate_payload le_bytes
length-generate_payload r =
    omega (arith, length-append {0} (encode_stops r.stops) r.prompt, length-encode_stops r.stops)

-- The encoder accepts a request exactly when it is within the limits, and returns its payload: the
-- last test, of the payload's own length, never fails.
pub encode_runner_generate-ok_iff :
    (r : RunnerGenerate) → (encode_runner_generate r ≡ ok (generate_payload r)) ↔ IsEncodable r
unfolding encode_runner_generate
encode_runner_generate-ok_iff r = (
  λ h. ground (arith, check_stops_sound 0 0 r.stops),
  λ v. ground (arith, v, check_stops_complete 0 0 r.stops, length-generate_payload r),
)
