-- ===== src/Runner/Sending.antt =====
-- internal/providers/local/runner.go: a validated request on its way to the runner, through the limits of
-- the two layers.
use native.Mathlib.Nat.{mod-eq_of_lt}
use yllmd.Base.{
  ℕ, ◌-◌, ◌^◌, ◌≤◌, ◌<◌, ◌≡◌, ◌⊎◌, inl, inr, ap, ℤ, pos, negsuc, to_u32, String, Option, none, some,
  List, [], ◌∷◌, ok, >>=-eq-ok, length, All, string_eq, arith,
}
use yllmd.Base.Float.{Float64}
use yllmd.Wire.Bytes.{Bytes}
use yllmd.Wire.Text.{utf8_bytes, valid_utf8-utf8_bytes}
use yllmd.Wire.Generate.{generate_payload, encode_runner_generate}
use yllmd.Wire.Generate.Limits.{total_bytes, IsEncodable, encode_runner_generate-ok_iff}
use yllmd.Wire.Generate.Payload.{IsTyped, parse_generate, parse_generate-generate_payload}
use yllmd.Protocol.{Request, Input, Message, GenerationSettings}
use yllmd.Protocol.Generation.{validate_generate}
use yllmd.Protocol.Accepted.{Given, IsBetween, IsAccepted}
use yllmd.Protocol.Decides.{validate_generate-ok_iff}
use yllmd.Catalog.{Catalog}
use yllmd.Registry.{LocalModel}
use yllmd.Runner.Prompts.{render_runner_messages}
use yllmd.Runner.Options.{
  effective_runner_options, PreparedRunnerInput, catalog_prompt_template, prepare_messages,
  prepare_runner_input, generate_of, or_default,
}

abbrev pub IsFloat : Float64 → Type 0
IsFloat x = x < 2 ^ 64

-- Each number of the settings is a Go `float64`, so 64 bits.
pub record AreFloats (s : GenerationSettings) : Type 0 where
  pub temperature : Given s.temperature IsFloat
  pub top_p : Given s.top_p IsFloat
  pub min_p : Given s.min_p IsFloat
  pub presence_penalty : Given s.presence_penalty IsFloat
  pub repeat_penalty : Given s.repeat_penalty IsFloat

prepare_messages-mode :
    (today : String) (loaded : Option Catalog) (model : LocalModel) (messages : List Message)
    (p : PreparedRunnerInput)
    → prepare_messages today loaded model messages ≡ ok p
    → p.tokenization_mode ≤ 1
unfolding prepare_messages
prepare_messages-mode today loaded model messages p h =
    let id = model.config.catalog_id in
    let (template, _, h1) = >>=-eq-ok (catalog_prompt_template loaded id) _ h in
    let (prompt, _, h2) = >>=-eq-ok (render_runner_messages today template id messages) _ h1 in
    ground (arith, h2)

prepare-mode :
    (today : String) (loaded : Option Catalog) (model : LocalModel) (input : Input)
    (p : PreparedRunnerInput)
    → prepare_runner_input today loaded model input ≡ ok p
    → p.tokenization_mode ≤ 1
unfolding prepare_runner_input
prepare-mode today loaded model input p h =
    ground (arith, prepare_messages-mode today loaded model input.messages p)

or_default-bound : (d : ℕ) (o : Option ℕ) → d < 2 ^ 64 → Given o IsFloat → or_default d o < 2 ^ 64
or_default-bound d none h g = h
or_default-bound d (some x) h g = g

seed-bound :
    (o : Option ℕ)
    → Given o (λ n. (n < 2 ^ 32) ⊎ (n ≡ 2 ^ 64 - 1))
    → or_default (2 ^ 64 - 1) o < 2 ^ 64
seed-bound none g = omega arith
seed-bound (some x) (inl g) = omega arith
seed-bound (some x) (inr g) = omega arith

-- A bounded integer goes through the conversion unchanged.
to_u32-exact :
    (d low : ℕ) (o : Option ℤ)
    → d < 2 ^ 32
    → Given o (IsBetween low 1000000)
    → pos (to_u32 (or_default (pos d) o)) ≡ or_default (pos d) o
to_u32-exact d low none h g = ap pos (mod-eq_of_lt h)
to_u32-exact d low (some (pos n)) h g = ap pos (mod-eq_of_lt (omega (arith, g.1)))
to_u32-exact d low (some (negsuc n)) h g = absurd g

to_u32-bound : (i : ℤ) → to_u32 i < 2 ^ 32
to_u32-bound (pos n) = omega arith
to_u32-bound (negsuc n) = omega arith

stop_sizes :
    (stops : List Bytes)
    → total_bytes stops ≤ 65536
    → All (λ (stop : Bytes). length stop < 2 ^ 32) stops
stop_sizes [] h = tt
stop_sizes (stop ∷ stops) h = (omega arith, stop_sizes stops (omega arith))

generate_of-IsEncodable :
    (r : Request) (p : PreparedRunnerInput)
    → IsAccepted r
    → p.tokenization_mode ≤ 1
    → length (utf8_bytes p.prompt) ≤ 16777216
    → IsEncodable (generate_of r.settings p)
unfolding generate_of
generate_of-IsEncodable r p v mode short = record {
  mode = mode;
  prompt_utf8 = valid_utf8-utf8_bytes p.prompt;
  prompt_short = short;
  stops_few = v.stops_few;
  stops_valid = v.stops_valid;
  stops_short = v.stops_short;
}

generate_of-IsTyped :
    (r : Request) (p : PreparedRunnerInput)
    → IsAccepted r
    → p.tokenization_mode ≤ 1
    → AreFloats r.settings
    → IsTyped (generate_of r.settings p)
unfolding generate_of effective_runner_options
generate_of-IsTyped r p v mode f = record {
  mode = omega (arith, mode);
  max_tokens = to_u32-bound (or_default (pos 128) r.settings.max_tokens);
  temperature = or_default-bound _ r.settings.temperature (omega arith) f.temperature;
  top_p = or_default-bound _ r.settings.top_p (omega arith) f.top_p;
  top_k = to_u32-bound (or_default (pos 40) r.settings.top_k);
  min_p = or_default-bound _ r.settings.min_p (omega arith) f.min_p;
  presence_penalty =
      or_default-bound _ r.settings.presence_penalty (omega arith) f.presence_penalty;
  repeat_penalty = or_default-bound _ r.settings.repeat_penalty (omega arith) f.repeat_penalty;
  seed = seed-bound r.settings.seed v.sampling.seed;
  stop_count = omega (arith, v.stops_few);
  stop_sizes = stop_sizes r.settings.stop v.stops_short;
}

-- For a request that `ValidateGenerate` accepts, whose input `prepareRunnerInput` has prepared and
-- whose prompt is within the protocol's limit, the Generate message is encoded without an error, the
-- payload read back is that message, and the conversions to 32 bits have changed neither `max_tokens`
-- nor `top_k`.
pub accepted_sends :
    (today : String) (loaded : Option Catalog) (model : LocalModel) (input : Input) (r : Request)
    (p : PreparedRunnerInput)
    → validate_generate r ≡ ok tt
    → AreFloats r.settings
    → prepare_runner_input today loaded model input ≡ ok p
    → length (utf8_bytes p.prompt) ≤ 16777216
    → (payload : Bytes) × (encode_runner_generate (generate_of r.settings p) ≡ ok payload)
      × (parse_generate payload ≡ some (generate_of r.settings p))
      × (pos (generate_of r.settings p).max_tokens
          ≡ (effective_runner_options r.settings).max_tokens)
      × (pos (generate_of r.settings p).top_k ≡ (effective_runner_options r.settings).top_k)
unfolding generate_of effective_runner_options
accepted_sends today loaded model input r p valid floats prepared short =
    let v = (validate_generate-ok_iff r).0 valid in
    let mode = prepare-mode today loaded model input p prepared in
    (
      generate_payload (generate_of r.settings p),
      (encode_runner_generate-ok_iff (generate_of r.settings p)).1
          (generate_of-IsEncodable r p v mode short),
      parse_generate-generate_payload (generate_of r.settings p)
          (generate_of-IsTyped r p v mode floats),
      to_u32-exact 128 1 r.settings.max_tokens (omega arith) v.sampling.max_tokens,
      to_u32-exact 40 0 r.settings.top_k (omega arith) v.sampling.top_k,
    )
