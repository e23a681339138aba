-- ===== src/Registry/Resolution.antt =====
-- internal/models/registry.go: which candidate of a profile is taken.
use mathlib.Core.Path.{subst}
use yllmd.Base.{
  Bool-cases, err, ℕ, suc, ◌+◌, ◌≡◌, ◌⊎◌, refl, sym, ap, ◌∙◌, Result-cases, inl, inr, true, false,
  not, ◌&&◌, ◌||◌, String, Option, none, some, List, [], ◌∷◌, ◌++◌, ok, >>=-eq-ok, reject, is_ok,
  length, All, ◌==◌, string_eq, nat_eq, if◌then◌else◌, arith,
}
use yllmd.Base.Dict.{lookup}
use yllmd.Config.{ProfileConfig}
use yllmd.Protocol.{ModelTarget}
use yllmd.Registry.{
  Registry, LocalModel, RegistryError, ResolvedTarget, resolve, no_available_model, unknown_group,
  unknown_profile, no_default_profile,
}
use yllmd.Registry.Routing.{
  Available, Choice, choose, standbys, unavailable_model_policy, resolve_exact, resolve_profile,
  resolve_route, or_unknown, requested,
}

module _ (r : Registry) (available : Available) where
  -- A configured model that cannot be used.
  abbrev pub IsSkipped : String → Type 0
  IsSkipped identifier =
      (m : LocalModel) × (resolve r identifier ≡ ok m) × (is_ok (available m) ≡ false)

  -- The names of the models that the identifiers stand for and that can be used, in their order.
  pub data Standbys : List String → List String → Type 0 where
    ends : Standbys [] []
    stands_by :
        {identifier : String} {m : LocalModel} {rest names : List String}
        → resolve r identifier ≡ ok m
        → is_ok (available m) ≡ true
        → Standbys rest names
        → Standbys (identifier ∷ rest) (m.name ∷ names)
    cannot_be_used :
        {identifier : String} {m : LocalModel} {rest names : List String}
        → resolve r identifier ≡ ok m
        → is_ok (available m) ≡ false
        → Standbys rest names
        → Standbys (identifier ∷ rest) names
    unconfigured :
        {identifier : String} {e : RegistryError} {rest names : List String}
        → resolve r identifier ≡ err e
        → Standbys rest names
        → Standbys (identifier ∷ rest) names

  standbys-Standbys :
      (identifiers : List String) → Standbys identifiers (standbys r available identifiers)
  unfolding standbys
  standbys-Standbys [] = ends
  standbys-Standbys (identifier ∷ rest) =
      let others = standbys-Standbys rest in
      let here =
        λ (names : List String) (e : standbys r available (identifier ∷ rest) ≡ names)
            (s : Standbys (identifier ∷ rest) names).
          subst (Standbys (identifier ∷ rest)) (sym e) s in
      elim (Result-cases (resolve r identifier)) [
        | inr (e, missing) ↦
            here (standbys r available rest) (ground (arith, missing)) (unconfigured missing others)
        | inl (m, found) ↦ elim (Bool-cases (is_ok (available m))) [
          | inl fine ↦
              here (m.name ∷ standbys r available rest) (ground (arith, fine))
                (stands_by found fine others)
          | inr bad ↦
              here (standbys r available rest) (ground (arith, bad))
                (cannot_be_used found bad others)
        ]
      ]

  -- The candidate at `index` is the first that can be used.
  pub record IsFirst (candidates : List String) (c : Choice) (index : ℕ) : Type 0 where
    pub skipped : List String
    pub taken : String
    pub later : List String
    pub order : candidates ≡ skipped ++ (taken ∷ later)
    pub position : c.index ≡ index + length skipped
    pub unusable : All IsSkipped skipped
    pub found : resolve r taken ≡ ok c.model
    pub usable : is_ok (available c.model) ≡ true
    pub standby :
        (((unavailable_model_policy r == "use_fallback") ≡ true) × Standbys later c.fallback_models)
        ⊎ (((unavailable_model_policy r == "use_fallback") ≡ false) × (c.fallback_models ≡ []))

  pub choose_step :
      (index : ℕ) (u : Option RegistryError) (e : RegistryError) (identifier : String)
      (rest : List String) (c : Choice)
      → choose r available index u e (identifier ∷ rest) ≡ ok c
      → ((m : LocalModel) × (resolve r identifier ≡ ok m)
          × (is_ok (available m) ≡ true)
          × (c.index ≡ index)
          × (c.model ≡ m)
          × (c.fallback_models ≡ (
              if unavailable_model_policy r == "use_fallback"
              then standbys r available rest
              else [])))
        ⊎ ((x : RegistryError) × IsSkipped identifier
            × (choose r available (suc index) (some x) e rest ≡ ok c)
            × ((index ≡ 0) → (unavailable_model_policy r == "use_fallback") ≡ true))
  unfolding choose
  choose_step index u e identifier rest c h = elim (Result-cases (resolve r identifier)) [
    | inr (x, missing) ↦ absurd (ground (arith, missing))
    | inl (m, found) ↦ elim (Result-cases (available m)) [
      | inl (_, fine) ↦ inl (m, found, ground arith, ground arith, ground arith, ground arith)
      | inr (x, bad) ↦ inr (x, (m, found, ground arith), ground arith, ground arith)
    ]
  ]

  choose-IsFirst :
      (index : ℕ) (u : Option RegistryError) (e : RegistryError) (candidates : List String)
      (c : Choice)
      → choose r available index u e candidates ≡ ok c
      → IsFirst candidates c index
  choose-IsFirst index none e [] c h = unfold choose in absurd (ground arith)
  choose-IsFirst index (some x) e [] c h = unfold choose in absurd (ground arith)
  choose-IsFirst index u e (identifier ∷ rest) c h =
      elim (choose_step index u e identifier rest c h) [
        | inl (m, found, usable, position, same, standby) ↦ record {
          skipped = [];
          taken = identifier;
          later = rest;
          order = refl;
          position = omega (arith, position);
          unusable = tt;
          found = found ∙ ap ok (sym same);
          usable = rw same usable;
          standby = elim (Bool-cases (unavailable_model_policy r == "use_fallback")) [
            | inl lenient ↦ inl (
              lenient,
              subst (Standbys rest)
                  (sym (standby ∙ ap (λ b. if b then standbys r available rest else []) lenient))
                  (standbys-Standbys rest),
            )
            | inr strict ↦
                inr (strict, standby ∙ ap (λ b. if b then standbys r available rest else []) strict)
          ];
        }
        | inr (x, skip, next, _) ↦
            let first = choose-IsFirst (suc index) (some x) e rest c next in
            record {
              skipped = identifier ∷ first.skipped;
              taken = first.taken;
              later = first.later;
              order = ap (◌∷◌ identifier) first.order;
              position = omega (arith, first.position);
              unusable = (skip, first.unusable);
              found = first.found;
              usable = first.usable;
              standby = first.standby;
            }
      ]

  -- With the policy `use_fallback`, candidates that cannot be used are passed over.
  choose-skip :
      (index : ℕ) (u : Option RegistryError) (e : RegistryError) (skipped : List String)
      (taken : String) (later : List String) (m : LocalModel)
      → (unavailable_model_policy r == "use_fallback") ≡ true
      → All IsSkipped skipped
      → resolve r taken ≡ ok m
      → is_ok (available m) ≡ true
      → choose r available index u e (skipped ++ (taken ∷ later))
        ≡ ok (record {
          index = index + length skipped;
          model = m;
          fallback_models = standbys r available later;
        })
  unfolding choose
  choose-skip index u e [] taken later m policy skips found usable = ground arith
  choose-skip index u e (s ∷ ss) taken later m policy ((m', found', unusable), skips) found usable =
      elim (Result-cases (available m')) [
        | inl (_, fine) ↦ absurd (ground (arith))
        | inr (x, bad) ↦
            ground
              (arith, choose-skip (suc index) (some x) e ss taken later m policy skips found usable)
      ]

  -- When a profile resolves, its model is the first of the profile's models that can be used, in the
  -- configured order, all before it are configured but cannot be used, and its stand-ins are the
  -- names of those after it that are configured and can be used, in their order, under `use_fallback`,
  -- and none under another policy; a fallback is reported
  -- exactly if it is not the profile's own model.
  pub resolve_profile-IsFirst :
      (result res : ResolvedTarget) (group profile_name : String) (profile : ProfileConfig)
      → resolve_profile r available result group profile_name profile ≡ ok res
      → (c : Choice) × IsFirst (profile.model ∷ profile.fallbacks) c 0
        × (res.resolved_model ≡ c.model.name)
        × (res.fallback_models ≡ c.fallback_models)
        × (res.used_fallback ≡ not (c.index == 0))
        × (res.resolved_group ≡ group)
        × (res.resolved_profile ≡ profile_name)
  unfolding resolve_profile
  resolve_profile-IsFirst result res group profile_name profile h =
      let (c, chosen, rest) =
        >>=-eq-ok
          (choose r available 0 none (no_available_model group profile_name)
            (profile.model ∷ profile.fallbacks))
          _ h in
      (
        c,
        choose-IsFirst 0 none _ _ c chosen,
        ground arith,
        ground arith,
        ground arith,
        ground arith,
        ground arith,
      )

  -- Under `use_fallback` a profile resolves as soon as one of its models can be used, if the models
  -- before it are at least configured.
  pub resolve_profile_complete :
      (result : ResolvedTarget) (group profile_name : String) (profile : ProfileConfig)
      (skipped : List String) (taken : String) (later : List String) (m : LocalModel)
      → (unavailable_model_policy r == "use_fallback") ≡ true
      → profile.model ∷ profile.fallbacks ≡ skipped ++ (taken ∷ later)
      → All IsSkipped skipped
      → resolve r taken ≡ ok m
      → is_ok (available m) ≡ true
      → (res : ResolvedTarget) × (resolve_profile r available result group profile_name profile
          ≡ ok res)
        × (res.resolved_model ≡ m.name)
  unfolding resolve_profile
  resolve_profile_complete result group profile_name profile skipped taken later m policy order
        skips found usable =
      let chosen =
        ap (choose r available 0 none (no_available_model group profile_name)) order
        ∙ choose-skip 0 none (no_available_model group profile_name) skipped taken later m policy
            skips found usable in
      rw (chosen, resolve_profile) (_, refl, refl)

  -- The name of some model that is configured and can be used.
  abbrev pub Usable : String → Type 0
  Usable name =
      (identifier : String) × (m : LocalModel) × (resolve r identifier ≡ ok m)
      × (is_ok (available m) ≡ true)
      × (m.name ≡ name)

  pub resolve_exact-Usable :
      (target : ModelTarget) (res : ResolvedTarget)
      → resolve_exact r target available ≡ ok res
      → Usable res.resolved_model
  unfolding resolve_exact
  resolve_exact-Usable target res h =
      let (m, found, h1) = >>=-eq-ok (resolve r target.model) _ h in
      let (u, fine, h2) = >>=-eq-ok (available m) _ h1 in
      (target.model, m, found, ground arith, ground arith)

  pub resolve_profile-Usable :
      (result res : ResolvedTarget) (group profile_name : String) (profile : ProfileConfig)
      → resolve_profile r available result group profile_name profile ≡ ok res
      → Usable res.resolved_model
  resolve_profile-Usable result res group profile_name profile h =
      let (c, first, name, _, _, _, _) =
        resolve_profile-IsFirst result res group profile_name profile h in
      (first.taken, c.model, first.found, first.usable, sym name)

  -- A route that resolves has come to some profile of some group.
  pub resolve_route-profile :
      (target : ModelTarget) (res : ResolvedTarget)
      → resolve_route r target available ≡ ok res
      → (result : ResolvedTarget) × (group : String) × (name : String) × (profile : ProfileConfig)
        × (resolve_profile r available result group name profile ≡ ok res)
  unfolding resolve_route
  resolve_route-profile target res h =
      let by_default = target.group == "" in
      let group_name = if by_default then r.cfg.routing.default.group else target.group in
      let profile_name = if by_default then r.cfg.routing.default.profile else target.profile in
      let (group, _, h1) =
        >>=-eq-ok (or_unknown (unknown_group group_name) (lookup group_name r.cfg.routing.groups)) _
          h in
      let default_profile = profile_name == "" in
      let chosen = if default_profile then group.default_profile else profile_name in
      let (_, _, h2) =
        >>=-eq-ok (reject (default_profile && (chosen == "")) (no_default_profile group_name)) _
          h1 in
      let (profile, _, h3) =
        >>=-eq-ok (or_unknown (unknown_profile group_name chosen) (lookup chosen group.profiles)) _
          h2 in
      (
        record (requested target) {
          used_default_group = by_default;
          used_default_profile = by_default || default_profile;
        },
        group_name,
        chosen,
        profile,
        h3,
      )
