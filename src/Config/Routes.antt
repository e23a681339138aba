-- ===== src/Config/Routes.antt =====
-- internal/config/config.go: the routes of a configuration that `Validate` accepts.
use mathlib.Core.Path.{subst}
use text.Mathlib.TextEquality.{eq_iff}
use yllmd.Base.{
  ◌≡◌, ◌≢◌, refl, ap, sym, ◌∙◌, ◌⊎◌, Bool-cases, arith, Bool, true, false, not, ◌&&◌, String, some,
  Option-cases, List, [], ◌∷◌, ◌++◌, All, inl, inr, is_empty, contains, ◌==◌, ◌!=◌, string_eq,
  if◌then◌else◌,
}
use yllmd.Base.Dict.{Dict, lookup, has_key}
use yllmd.Config.{ModelConfig, ProfileConfig, GroupConfig, Config}
use yllmd.Config.Validation.{
  ConfigError, fault, alias_owner, resolve_model_reference, validate_fallbacks, or_empty,
  is_missing, validate_profiles, validate_groups, validate_default, validate, validate_identifier,
  validate_fields, validate_models, validate_policies, repeats_primary, repeats_fallback,
  unknown_model, no_profiles, group_default,
}

-- A model with the reference among its aliases.
abbrev pub HasAlias : Dict ModelConfig → String → String → Type 0
HasAlias [] reference name = ⊥
HasAlias ((key, model) ∷ rest) reference name =
    ((key ≡ name) × (contains model.aliases reference ≡ true)) ⊎ HasAlias rest reference name

-- The reference is the name of a configured model, or one of its aliases where it is no name itself.
abbrev pub StandsFor : Dict ModelConfig → String → String → Type 0
StandsFor models reference name =
    ((has_key reference models ≡ true) × (reference ≡ name))
    ⊎ ((has_key reference models ≡ false) × HasAlias models reference name)

alias_owner-HasAlias :
    (models : Dict ModelConfig) (reference name : String)
    → alias_owner models reference ≡ some name
    → HasAlias models reference name
unfolding alias_owner
alias_owner-HasAlias [] reference name h = cc
alias_owner-HasAlias ((key, model) ∷ rest) reference name h =
    elim (Bool-cases (contains model.aliases reference)) [
      | inl here ↦
          let same : some key ≡ some name =
            sym (ap (λ b. if b then some key else alias_owner rest reference) here) ∙ h in
          inl (cc, here)
      | inr there ↦ inr (
          alias_owner-HasAlias rest reference name
            (sym (ap (λ b. if b then some key else alias_owner rest reference) there) ∙ h))
    ]

resolve_model_reference-StandsFor :
    (models : Dict ModelConfig) (reference name : String)
    → resolve_model_reference models reference ≡ some name
    → StandsFor models reference name
unfolding resolve_model_reference
resolve_model_reference-StandsFor models reference name h =
    elim (Bool-cases (has_key reference models)) [
      | inl here ↦
          let same : some reference ≡ some name =
            sym (ap (λ b. if b then some reference else alias_owner models reference) here) ∙ h in
          inl (here, cc)
      | inr there ↦ inr (
        there,
        alias_owner-HasAlias models reference name
            (sym (ap (λ b. if b then some reference else alias_owner models reference) there) ∙ h),
      )
    ]

-- A fallback that stands for a configured model, not the profile's own.
abbrev pub IsFallback : Dict ModelConfig → String → String → Type 0
IsFallback models primary reference =
    (name : String) × StandsFor models reference name × (name ≢ primary)

abbrev pub IsProfile : Dict ModelConfig → String × ProfileConfig → Type 0
IsProfile models (_, p) =
    (primary : String) × StandsFor models p.model primary
    × All (IsFallback models primary) p.fallbacks

abbrev pub IsGroup : Dict ModelConfig → String × GroupConfig → Type 0
IsGroup models (_, g) = All (IsProfile models) g.profiles

split_nil : (xs : List ConfigError) {ys : List ConfigError} → xs ++ ys ≡ [] → (xs ≡ []) × (ys ≡ [])
split_nil [] h = (refl, h)
split_nil (x ∷ xs) h = cc

fault_nil : (b : Bool) (e : ConfigError) → fault b e ≡ [] → b ≡ false
fault_nil true e h = cc
fault_nil false e h = refl

fallbacks_sound :
    (models : Dict ModelConfig) (primary : String) (seen fallbacks : List String)
    → validate_fallbacks models primary seen fallbacks ≡ []
    → All (IsFallback models primary) fallbacks
unfolding validate_fallbacks
fallbacks_sound models primary seen [] h = tt
fallbacks_sound models primary seen (f ∷ fs) h =
    elim (Option-cases (resolve_model_reference models f)) [
      | inl missing ↦ absurd (ground (arith, missing))
      | inr (name, known) ↦
          let found : fault (name == primary) (repeats_primary f)
                ++ (fault (contains seen name) (repeats_fallback f)
                    ++ (validate_identifier f
                        ++ validate_fallbacks models primary (name ∷ seen) fs))
              ≡ [] =
            ground (arith, known) in
          let (other, h1) = split_nil (fault (name == primary) (repeats_primary f)) found in
          let (_, h2) = split_nil (fault (contains seen name) (repeats_fallback f)) h1 in
          let (_, h3) = split_nil (validate_identifier f) h2 in
          (
            (
              name,
              resolve_model_reference-StandsFor models f name known,
              λ same. ground (
                arith,
                eq_iff name primary,
                fault_nil (name == primary) (repeats_primary f) other,
              ),
            ),
            fallbacks_sound models primary (name ∷ seen) fs h3,
          )
    ]

profiles_sound :
    (models : Dict ModelConfig) (profiles : Dict ProfileConfig)
    → validate_profiles models profiles ≡ []
    → All (IsProfile models) profiles
unfolding validate_profiles
profiles_sound models [] h = tt
profiles_sound models ((name, p) ∷ rest) h =
    let primary = resolve_model_reference models p.model in
    let (_, h1) = split_nil (validate_identifier name) h in
    let (known, h2) = split_nil (fault (is_missing primary) (unknown_model p.model)) h1 in
    let (fallbacks, h3) =
      split_nil (validate_fallbacks models (or_empty primary) [] p.fallbacks) h2 in
    elim (Option-cases primary) [
      | inl missing ↦
          absurd
            (ground (arith, missing, fault_nil (is_missing primary) (unknown_model p.model) known))
      | inr (model, found) ↦ (
        (
          model,
          resolve_model_reference-StandsFor models p.model model found,
          fallbacks_sound models model [] p.fallbacks (
              subst (λ o. validate_fallbacks models (or_empty o) [] p.fallbacks ≡ []) found
                fallbacks),
        ),
        profiles_sound models rest h3,
      )
    ]

groups_sound :
    (models : Dict ModelConfig) (groups : Dict GroupConfig)
    → validate_groups models groups ≡ []
    → All (IsGroup models) groups
unfolding validate_groups
groups_sound models [] h = tt
groups_sound models ((name, g) ∷ rest) h =
    let (_, h1) = split_nil (validate_identifier name) h in
    let (_, h2) = split_nil (fault (is_empty g.profiles) (no_profiles name)) h1 in
    let (_, h3) =
      split_nil
        (fault ((g.default_profile != "") && not (has_key g.default_profile g.profiles))
          (group_default name))
        h2 in
    let (here, there) = split_nil (validate_profiles models g.profiles) h3 in
    (profiles_sound models g.profiles here, groups_sound models rest there)

-- The default route leads to a configured group and a profile of it.
abbrev pub HasDefault : Config → Type 0
HasDefault c =
    (g : GroupConfig) × (lookup c.routing.default.group c.routing.groups ≡ some g)
    × (has_key
          (if c.routing.default.profile == "" then g.default_profile else c.routing.default.profile)
          g.profiles
        ≡ true)

default_sound : (c : Config) → validate_default c ≡ [] → HasDefault c
unfolding validate_default
default_sound c h = elim (Option-cases (lookup c.routing.default.group c.routing.groups)) [
  | inl missing ↦ absurd (ground (arith, missing))
  | inr (g, found) ↦ (g, found, ground (arith, found))
]

-- In a configuration in which `Validate` finds no error, the default route leads to a configured group
-- and a profile of it, and in every profile of every group the model and each fallback is the name of a
-- configured model or else an alias of one, no fallback of the model of the profile itself.
pub validate-IsGroup :
    (c : Config) → validate c ≡ [] → HasDefault c × All (IsGroup c.models) c.routing.groups
unfolding validate
validate-IsGroup c h =
    let (_, h1) = split_nil (validate_fields c) h in
    let (_, h2) = split_nil (validate_models [] c.models) h1 in
    let (_, h3) = split_nil (validate_policies c) h2 in
    let (groups, h4) = split_nil (validate_groups c.models c.routing.groups) h3 in
    let (default, _) = split_nil (validate_default c) h4 in
    (default_sound c default, groups_sound c.models c.routing.groups groups)
