-- ===== src/Registry/Routing.antt =====
-- internal/models/registry.go: `ResolveTargetWithAvailability`, `ResolveTarget` and `Resident`.
use yllmd.Base.{
  ℕ, suc, false, not, ◌&&◌, ◌||◌, String, Option, none, some, List, [], ◌∷◌, Result, ok, err, ◌>>=◌,
  ◌>>◌, reject, is_ok, ◌==◌, ◌!=◌, string_eq, nat_eq, if◌then◌else◌,
}
use yllmd.Base.Dict.{lookup}
use yllmd.Config.{ProfileConfig, is_enabled}
use yllmd.Protocol.{ModelTarget, no_target}
use yllmd.Registry.{
  Registry, LocalModel, RegistryError, ResolvedTarget, model_with_route, profile_without_group,
  unknown_group, no_default_profile, unknown_profile, no_available_model, disabled, resolve,
}

-- `available` of the source: nil, or the reason why the model cannot be used.
abbrev pub Available : Type 0
Available = LocalModel → Result RegistryError (Unit {0})

unfoldable pub unavailable_model_policy : Registry → String
unavailable_model_policy r =
    let policy = r.cfg.routing.unavailable_model_policy in
    if policy == "" then "use_fallback" else policy

-- The models among later candidates that can stand in: those configured and available, by name.
unfoldable pub standbys : Registry → Available → List String → List String
unfolding resolve
standbys r available [] = []
standbys r available (identifier ∷ rest) =
    let others = standbys r available rest in
    elim (resolve r identifier) [
      | err e ↦ others
      | ok model ↦ if is_ok (available model) then model.name ∷ others else others
    ]

-- What the loop over the candidates finds: the model, its index, and the stand-ins after it.
pub record Choice : Type 0 where
  pub index : ℕ
  pub model : LocalModel
  pub fallback_models : List String

unfoldable pub choose :
    Registry
    → Available
    → ℕ
    → Option RegistryError
    → RegistryError
    → List String
    → Result RegistryError Choice
unfolding resolve unavailable_model_policy standbys
choose r available index unavailable exhausted [] = elim unavailable [
  | some e ↦ err e
  | none ↦ err exhausted
]
choose r available index unavailable exhausted (identifier ∷ rest) =
    let later = λ (e : RegistryError). choose r available (suc index) (some e) exhausted rest in
    let use_fallback = unavailable_model_policy r == "use_fallback" in
    elim (resolve r identifier) [
      | err e ↦ err e
      | ok model ↦ elim (available model) [
        | err e ↦ if (index == 0) && not use_fallback then err e else later e
        | ok u ↦ ok (record {
          index = index;
          model = model;
          fallback_models = if use_fallback then standbys r available rest else [];
        })
      ]
    ]

-- The name of the model that a fallback stands in for.
abbrev pub primary_name : Registry → String → String
primary_name r identifier = elim (resolve r identifier) [
  | ok model ↦ model.name
  | err e ↦ identifier
]

abbrev pub or_unknown : {A : Type 0} → RegistryError → Option A → Result RegistryError A
or_unknown e none = err e
or_unknown e (some a) = ok a

abbrev pub requested : ModelTarget → ResolvedTarget
requested target = record {
  requested_group = target.group;
  requested_profile = target.profile;
  requested_model = target.model;
  resolved_group = "";
  resolved_profile = "";
  resolved_model = "";
  used_default_group = false;
  used_default_profile = false;
  used_fallback = false;
  fallback_from = "";
  fallback_models = [];
}

unfoldable pub resolve_exact :
    Registry → ModelTarget → Available → Result RegistryError ResolvedTarget
unfolding resolve
resolve_exact r target available = do
  model ← resolve r target.model
  available model
  ok (record (requested target) { resolved_model = model.name })

-- The candidates of a profile, tried in order.
unfoldable pub resolve_profile :
    Registry
    → Available
    → ResolvedTarget
    → String
    → String
    → ProfileConfig
    → Result RegistryError ResolvedTarget
unfolding resolve choose
resolve_profile r available result group_name profile_name profile = do
  choice ←
      choose r available 0 none (no_available_model group_name profile_name)
        (profile.model ∷ profile.fallbacks)
  ok (record result {
    resolved_group = group_name;
    resolved_profile = profile_name;
    resolved_model = choice.model.name;
    used_fallback = not (choice.index == 0);
    fallback_from = if choice.index == 0 then "" else primary_name r profile.model;
    fallback_models = choice.fallback_models;
  })

unfoldable pub resolve_route :
    Registry → ModelTarget → Available → Result RegistryError ResolvedTarget
unfolding resolve_profile
resolve_route r target available = do
  let by_default = target.group == ""
  let group_name = if by_default then r.cfg.routing.default.group else target.group
  let profile_name = if by_default then r.cfg.routing.default.profile else target.profile
  group ← or_unknown (unknown_group group_name) (lookup group_name r.cfg.routing.groups)
  let default_profile = profile_name == ""
  let chosen = if default_profile then group.default_profile else profile_name
  reject (default_profile && (chosen == "")) (no_default_profile group_name)
  profile ← or_unknown (unknown_profile group_name chosen) (lookup chosen group.profiles)
  resolve_profile r available
      (record (requested target) {
        used_default_group = by_default;
        used_default_profile = by_default || default_profile;
      })
      group_name chosen profile

unfoldable pub resolve_target_with_availability :
    Registry → ModelTarget → Available → Result RegistryError ResolvedTarget
unfolding resolve_exact resolve_route
resolve_target_with_availability r target available = do
  reject ((target.model != "") && ((target.group != "") || (target.profile != ""))) model_with_route
  reject ((target.profile != "") && (target.group == "")) profile_without_group
  if target.model != "" then resolve_exact r target available else resolve_route r target available

unfoldable pub enabled : Available
unfolding is_enabled
enabled model = reject (not (is_enabled model.config)) (disabled model.name)

unfoldable pub resolve_target : Registry → ModelTarget → Result RegistryError ResolvedTarget
unfolding resolve_target_with_availability enabled
resolve_target r target = resolve_target_with_availability r target enabled

unfoldable pub resident : Registry → Result RegistryError LocalModel
unfolding resolve_target resolve
resident r =
    let name = r.cfg.model_lifecycle.resident_model in
    if name == ""
    then (resolve_target r no_target >>= λ resolved. resolve r resolved.resolved_model)
    else resolve r name
