-- ===== src/Wire/Generate/Payload.antt =====
-- The Generate payload read back by an independent description of the runner's side: fields of fixed
-- width, a count of length-prefixed stop strings, and the prompt to the end.
use mathlib.Core.List.{append_assoc}
use native.Mathlib.Nat.{mod-eq_of_lt}
use yllmd.Base.{
  ℕ, zero, suc, ◌%◌, ◌^◌, ◌<◌, ◌≡◌, refl, Option, none, some, List, [], ◌∷◌, ◌++◌, length, All,
}
use yllmd.Wire.Bytes.{Bytes, le_bytes, read_le, split, split-append, read_le-le_bytes, read_byte}
use yllmd.Wire.Generate.{RunnerGenerate, encode_stops, generate_payload}

infixl 5 ◌>>=◌
abbrev ◌>>=◌ : {A B : Type 0} → Option A → (A → Option B) → Option B
none >>= f = none
some a >>= f = f a

read_stops : ℕ → Bytes → Option (List Bytes × Bytes)
read_stops zero bs = some ([], bs)
read_stops (suc count) bs = do
  (size, bs1) ← read_le 4 bs
  (stop, bs2) ← split size bs1
  (stops, rest) ← read_stops count bs2
  some (stop ∷ stops, rest)

-- A Generate message as a runner reads it.
pub parse_generate : Bytes → Option RunnerGenerate
unfolding read_stops
parse_generate bs = do
  (mode, b0) ← read_le 1 bs
  (count, b1) ← read_le 1 b0
  (max_tokens, b2) ← read_le 4 b1
  (temperature, b3) ← read_le 8 b2
  (top_p, b4) ← read_le 8 b3
  (top_k, b5) ← read_le 4 b4
  (min_p, b6) ← read_le 8 b5
  (presence, b7) ← read_le 8 b6
  (repeat, b8) ← read_le 8 b7
  (seed, b9) ← read_le 8 b8
  (stops, prompt) ← read_stops count b9
  some (record {
    prompt = prompt;
    tokenization_mode = mode;
    max_tokens = max_tokens;
    temperature = temperature;
    top_p = top_p;
    top_k = top_k;
    min_p = min_p;
    presence_penalty = presence;
    repeat_penalty = repeat;
    seed = seed;
    stops = stops;
  })

-- Every field is in the range of its Go type, and the stop strings can be counted and measured.
pub record IsTyped (r : RunnerGenerate) : Type 0 where
  pub mode : r.tokenization_mode < 256
  pub max_tokens : r.max_tokens < 2 ^ 32
  pub temperature : r.temperature < 2 ^ 64
  pub top_p : r.top_p < 2 ^ 64
  pub top_k : r.top_k < 2 ^ 32
  pub min_p : r.min_p < 2 ^ 64
  pub presence_penalty : r.presence_penalty < 2 ^ 64
  pub repeat_penalty : r.repeat_penalty < 2 ^ 64
  pub seed : r.seed < 2 ^ 64
  pub stop_count : length r.stops < 256
  pub stop_sizes : All (λ (stop : Bytes). length stop < 2 ^ 32) r.stops

read_stops-encode_stops :
    (stops : List Bytes) (rest : Bytes)
    → All (λ (stop : Bytes). length stop < 2 ^ 32) stops
    → read_stops (length stops) (encode_stops stops ++ rest) ≡ some (stops, rest)
unfolding read_stops encode_stops
read_stops-encode_stops [] rest h = refl
read_stops-encode_stops (stop ∷ stops) rest h = rw (
  append_assoc (le_bytes 4 (length stop % 2 ^ 32)) (stop ++ encode_stops stops) rest,
  append_assoc stop (encode_stops stops) rest,
  mod-eq_of_lt h.0,
  read_le-le_bytes,
  h.0,
  split-append,
  read_stops-encode_stops stops rest h.1,
)

-- When every field is in the range of its Go type, the payload read back is the message itself.
pub parse_generate-generate_payload :
    (r : RunnerGenerate) → IsTyped r → parse_generate (generate_payload r) ≡ some r
unfolding parse_generate generate_payload
parse_generate-generate_payload r t = rw (
  mod-eq_of_lt t.stop_count,
  read_byte,
  read_byte,
  read_le-le_bytes,
  t.max_tokens,
  read_le-le_bytes,
  t.temperature,
  read_le-le_bytes,
  t.top_p,
  read_le-le_bytes,
  t.top_k,
  read_le-le_bytes,
  t.min_p,
  read_le-le_bytes,
  t.presence_penalty,
  read_le-le_bytes,
  t.repeat_penalty,
  read_le-le_bytes,
  t.seed,
  read_stops-encode_stops r.stops r.prompt t.stop_sizes,
)
