-- ===== src/Tests/Routes.antt =====
-- A configuration whose chat profile names a model that is switched off, with one fallback.
use yllmd.Base.{
  ◌≡◌, refl, Bool, true, false, not, ok, err, some, pos, String, List, [], ◌∷◌, is_ok, ◌==◌, nat_eq,
  string_eq,
}
use yllmd.Base.Dict.{lookup, insert}
use yllmd.Protocol.{ModelTarget, no_target}
use yllmd.Config.{is_enabled, Config, ModelConfig, ProfileConfig}
use yllmd.Registry.{Registry, LocalModel, ResolvedTarget, new_registry, resolve, disabled}
use yllmd.Registry.Routing.{
  Choice, enabled, requested, resolve_profile, resolve_target, unavailable_model_policy,
}
use yllmd.Registry.Resolution.{
  IsSkipped, IsFirst, resolve_profile-IsFirst, resolve_profile_complete,
}
use yllmd.Registry.Targets.{resolve_target-Usable, resolve_target_reject}

abbrev model_config : Bool → List String → ModelConfig
model_config on aliases = record {
  catalog_id = "";
  model_path = "/models/m.gguf";
  aliases = aliases;
  enabled = some on;
  backend = record { kind = "process"; command = "yllm-runner"; transport = "stdio" };
  runtime = record { context_tokens = pos 4096; threads = pos 4; gpu_layers = pos 0 };
}

abbrev profile : ProfileConfig
profile = record { model = "small"; fallbacks = "big" ∷ [] }

abbrev pub config : String → Config
config policy = record {
  operating_mode = "";
  server = record { socket_path = "/run/yllmd.sock"; socket_mode = "0660"; socket_group = "" };
  queue = record { policy = "fifo"; max_depth = pos 4; default_timeout = pos 1000 };
  model_lifecycle = record {
    resident_model = "";
    idle_cooldown = pos 1000;
    max_loaded_models = pos 1;
  };
  paths = record { state_dir = "/s"; model_dir = "/m"; runtime_dir = "/r"; log_dir = "/l" };
  models = ("small", model_config false []) ∷ ("large", model_config true ("big" ∷ [])) ∷ [];
  routing = record {
    default = record { group = "chat"; profile = "" };
    unavailable_profile_policy = "reject";
    unavailable_model_policy = policy;
    groups =
        (
          "chat",
          record {
            default_profile = "fast";
            profiles =
                ("fast", profile)
                ∷ ("strong", record { model = "large"; fallbacks = "small" ∷ [] })
                ∷ [];
          },
        )
        ∷ [];
    default_provider = "local";
  };
  updates = record { check_interval = pos 0; default_policy = "manual" };
  remote_providers = [];
}

abbrev pub registry : Registry
registry = new_registry (config "")

abbrev strict_registry : Registry
strict_registry = new_registry (config "reject")

abbrev pub small : LocalModel
small = record { name = "small"; config = model_config false []; model_path = "/models/m.gguf" }

abbrev pub large : LocalModel
large = record {
  name = "large";
  config = model_config true ("big" ∷ []);
  model_path = "/models/m.gguf";
}

abbrev routed : ResolvedTarget
routed = record (requested no_target) {
  used_default_group = true;
  used_default_profile = true;
  resolved_group = "chat";
  resolved_profile = "fast";
  resolved_model = "large";
  used_fallback = true;
  fallback_from = "small";
}

abbrev strong : ModelTarget
strong = record no_target { group = "chat"; profile = "strong" }

-- What the second profile resolves to when no fallback is allowed.
abbrev strictly : ResolvedTarget
strictly = record (requested strong) {
  resolved_group = "chat";
  resolved_profile = "strong";
  resolved_model = "large";
}

routed_test : resolve_target registry no_target ≡ ok routed
unfolding resolve_target new_registry lookup insert
routed_test = refl

strict_test : resolve_target strict_registry strong ≡ ok strictly
unfolding resolve_target new_registry lookup insert
strict_test = refl

exact_test :
    resolve_target strict_registry (record no_target { model = "small" }) ≡ err (disabled "small")
unfolding resolve_target new_registry lookup insert
exact_test = refl

abbrev via_profile : ResolvedTarget
via_profile = record (requested no_target) {
  resolved_group = "chat";
  resolved_profile = "fast";
  resolved_model = "large";
  used_fallback = true;
  fallback_from = "small";
}

profile_test :
    resolve_profile registry enabled (requested no_target) "chat" "fast" profile ≡ ok via_profile
unfolding resolve_profile new_registry enabled lookup insert
profile_test = refl

resolve_profile-IsFirst_example :
    (c : Choice) × IsFirst registry enabled ("small" ∷ "big" ∷ []) c 0
    × (via_profile.resolved_model ≡ c.model.name)
    × (via_profile.fallback_models ≡ c.fallback_models)
    × (via_profile.used_fallback ≡ not (c.index == 0))
    × (via_profile.resolved_group ≡ "chat")
    × (via_profile.resolved_profile ≡ "fast")
resolve_profile-IsFirst_example =
    resolve_profile-IsFirst registry enabled (requested no_target) via_profile "chat" "fast" profile
      profile_test

small-IsSkipped : IsSkipped registry enabled "small"
unfolding lookup insert
small-IsSkipped = (small, unfold resolve in unfold new_registry in refl, unfold enabled in refl)

pub big_found : resolve registry "big" ≡ ok large
unfolding resolve new_registry lookup insert
big_found = refl

large_enabled : is_ok (enabled large) ≡ true
unfolding enabled
large_enabled = refl

lenient : (unavailable_model_policy registry == "use_fallback") ≡ true
unfolding unavailable_model_policy new_registry
lenient = refl

resolve_profile_complete_example :
    (res : ResolvedTarget) × (resolve_profile registry enabled
        (requested no_target)
        "chat"
        "fast"
        profile
      ≡ ok res)
    × (res.resolved_model ≡ "large")
resolve_profile_complete_example =
    resolve_profile_complete registry enabled (requested no_target) "chat" "fast" profile
      ("small" ∷ []) "big" [] large lenient refl (small-IsSkipped, tt) big_found large_enabled

resolve_target-Usable_example :
    (identifier : String) × (m : LocalModel) × (resolve registry identifier ≡ ok m)
    × (is_enabled m.config ≡ true)
    × (m.name ≡ "large")
resolve_target-Usable_example = resolve_target-Usable registry no_target routed routed_test

strict : (unavailable_model_policy strict_registry == "use_fallback") ≡ false
unfolding unavailable_model_policy new_registry
strict = refl

resolve_target_reject_example : (strictly.used_fallback ≡ false) × (strictly.fallback_models ≡ [])
resolve_target_reject_example =
    resolve_target_reject strict_registry strong strictly strict strict_test
