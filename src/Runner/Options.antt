-- ===== src/Runner/Options.antt =====
-- internal/providers/local/runner.go: the options of a generation, its prepared input, and the message
-- that `run` makes of both. The embedded catalogue is an argument, `none` if it cannot be loaded.
use yllmd.Base.{
  ℕ, ◌-◌, ◌^◌, ℤ, pos, to_u32, String, Option, none, some, List, Result, ok, err, ◌>>=◌, ◌==◌,
  string_eq, if◌then◌else◌,
}
use yllmd.Base.Float.{Float64}
use yllmd.Wire.Text.{utf8_bytes}
use yllmd.Wire.Generate.{RunnerGenerate, runner_tokenization_raw, runner_tokenization_formatted}
use yllmd.Protocol.{Input, Message, GenerationSettings}
use yllmd.Catalog.{Catalog, variant}
use yllmd.Registry.{LocalModel}
use yllmd.Runner.Prompts.{PromptError, catalog_invalid, render_runner_messages}

pub record RunnerOptions : Type 0 where
  pub temperature : Float64
  pub top_p : Float64
  pub max_tokens : ℤ
  pub top_k : ℤ
  pub min_p : Float64
  pub presence_penalty : Float64
  pub repeat_penalty : Float64
  pub seed : ℕ

-- 0.8, 0.95, 0.05, 0.0 and 1.0
abbrev pub default_runner_temperature : Float64
default_runner_temperature = 0x3fe9_9999_9999_999a

abbrev pub default_runner_top_p : Float64
default_runner_top_p = 0x3fee_6666_6666_6666

abbrev pub default_runner_min_p : Float64
default_runner_min_p = 0x3fa9_9999_9999_999a

abbrev pub default_runner_presence : Float64
default_runner_presence = 0

abbrev pub default_runner_repeat : Float64
default_runner_repeat = 0x3ff0_0000_0000_0000

-- `if settings.X != nil { options.x = *settings.X }`
abbrev pub or_default {ℓ} : {A : Type ℓ} → A → Option A → A
or_default d none = d
or_default d (some a) = a

unfoldable pub effective_runner_options : GenerationSettings → RunnerOptions
effective_runner_options s = record {
  temperature = or_default default_runner_temperature s.temperature;
  top_p = or_default default_runner_top_p s.top_p;
  max_tokens = or_default (pos 128) s.max_tokens;
  top_k = or_default (pos 40) s.top_k;
  min_p = or_default default_runner_min_p s.min_p;
  presence_penalty = or_default default_runner_presence s.presence_penalty;
  repeat_penalty = or_default default_runner_repeat s.repeat_penalty;
  seed = or_default (2 ^ 64 - 1) s.seed;
}

unfoldable pub catalog_prompt_template : Option Catalog → String → Result PromptError String
catalog_prompt_template loaded id = if id == "" then ok "" else elim loaded [
  | none ↦ err catalog_invalid
  | some c ↦ elim (variant c id) [
    | none ↦ ok ""
    | some (f, v) ↦ elim v.artifact [ none ↦ ok "" | some a ↦ ok a.prompt_template ]
  ]
]

pub record PreparedRunnerInput : Type 0 where
  pub prompt : String
  pub tokenization_mode : ℕ

-- The part of `prepareRunnerInput` for messages.
unfoldable pub prepare_messages :
    String → Option Catalog → LocalModel → List Message → Result PromptError PreparedRunnerInput
unfolding catalog_prompt_template render_runner_messages
prepare_messages today loaded model messages = do
  template ← catalog_prompt_template loaded model.config.catalog_id
  prompt ← render_runner_messages today template model.config.catalog_id messages
  ok (record {
    prompt = prompt;
    tokenization_mode =
        if template == "" then runner_tokenization_raw else runner_tokenization_formatted;
  })

unfoldable pub prepare_runner_input :
    String → Option Catalog → LocalModel → Input → Result PromptError PreparedRunnerInput
unfolding prepare_messages
prepare_runner_input today loaded model input =
    if input.kind == "prompt"
    then ok (record { prompt = input.prompt; tokenization_mode = runner_tokenization_raw })
    else prepare_messages today loaded model input.messages

-- The Generate message of `run`.
unfoldable pub generate_of : GenerationSettings → PreparedRunnerInput → RunnerGenerate
unfolding effective_runner_options
generate_of s prepared =
    let options = effective_runner_options s in
    record {
      prompt = utf8_bytes prepared.prompt;
      tokenization_mode = prepared.tokenization_mode;
      max_tokens = to_u32 options.max_tokens;
      temperature = options.temperature;
      top_p = options.top_p;
      top_k = to_u32 options.top_k;
      min_p = options.min_p;
      presence_penalty = options.presence_penalty;
      repeat_penalty = options.repeat_penalty;
      seed = options.seed;
      stops = s.stop;
    }
