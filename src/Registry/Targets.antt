-- ===== src/Registry/Targets.antt =====
-- internal/models/registry.go: `ResolveTarget` on any target, exact or routed.
use yllmd.Base.{
  ◌≡◌, ◌⊎◌, refl, Bool-cases, inl, inr, false, ◌&&◌, ◌||◌, String, none, [], ◌∷◌, ok, >>=-eq-ok,
  reject, is_ok, true, ◌==◌, ◌!=◌, string_eq, nat_eq, arith,
}
use yllmd.Config.{ProfileConfig, is_enabled}
use yllmd.Protocol.{ModelTarget}
use yllmd.Registry.{
  Registry, LocalModel, ResolvedTarget, resolve, no_available_model, model_with_route,
  profile_without_group,
}
use yllmd.Registry.Routing.{
  Available, choose, unavailable_model_policy, resolve_exact, resolve_profile, resolve_route,
  resolve_target_with_availability, resolve_target, enabled,
}
use yllmd.Registry.Resolution.{
  Usable, choose_step, resolve_exact-Usable, resolve_profile-Usable, resolve_route-profile,
}

resolve_target-cases :
    (r : Registry) (available : Available) (target : ModelTarget) (res : ResolvedTarget)
    → resolve_target_with_availability r target available ≡ ok res
    → (resolve_exact r target available ≡ ok res) ⊎ (resolve_route r target available ≡ ok res)
unfolding resolve_target_with_availability
resolve_target-cases r available target res h =
    let exact = target.model != "" in
    let (_, _, h1) =
      >>=-eq-ok
        (reject (exact && ((target.group != "") || (target.profile != ""))) model_with_route) _ h in
    let (_, _, h2) =
      >>=-eq-ok (reject ((target.profile != "") && (target.group == "")) profile_without_group) _
        h1 in
    elim (Bool-cases exact) [
      | inl model ↦ inl (ground (arith, model, h2))
      | inr route ↦ inr (ground (arith, route, h2))
    ]

enabled-ok : (m : LocalModel) → is_ok (enabled m) ≡ true → is_enabled m.config ≡ true
unfolding enabled
enabled-ok m h = ground arith

-- Whatever target is asked for, the model that it resolves to is configured, with a configuration that
-- does not disable it.
pub resolve_target-Usable :
    (r : Registry) (target : ModelTarget) (res : ResolvedTarget)
    → resolve_target r target ≡ ok res
    → (identifier : String) × (m : LocalModel) × (resolve r identifier ≡ ok m)
      × (is_enabled m.config ≡ true)
      × (m.name ≡ res.resolved_model)
unfolding resolve_target
resolve_target-Usable r target res h =
    let usable : Usable r enabled res.resolved_model =
      elim (resolve_target-cases r enabled target res h) [
        | inl exact ↦ resolve_exact-Usable r enabled target res exact
        | inr route ↦
            let (result, group, name, profile, found) =
              resolve_route-profile r enabled target res route in
            resolve_profile-Usable r enabled result res group name profile found
      ] in
    let (identifier, m, found, passes, named) = usable in
    (identifier, m, found, enabled-ok m passes, named)

exact_alone :
    (r : Registry) (target : ModelTarget) (res : ResolvedTarget)
    → resolve_exact r target enabled ≡ ok res
    → (res.used_fallback ≡ false) × (res.fallback_models ≡ [])
unfolding resolve_exact
exact_alone r target res h =
    let (m, _, h1) = >>=-eq-ok (resolve r target.model) _ h in
    let (u, _, h2) = >>=-eq-ok (enabled m) _ h1 in (ground (arith, h2), ground (arith, h2))

standing_alone :
    (r : Registry) (available : Available) (result res : ResolvedTarget) (group name : String)
    (profile : ProfileConfig)
    → (unavailable_model_policy r == "use_fallback") ≡ false
    → resolve_profile r available result group name profile ≡ ok res
    → (res.used_fallback ≡ false) × (res.fallback_models ≡ [])
unfolding resolve_profile
standing_alone r available result res group name profile policy h =
    let (c, chosen, rest) =
      >>=-eq-ok
        (choose r available 0 none (no_available_model group name)
          (profile.model ∷ profile.fallbacks))
        _ h in
    elim (choose_step r available 0 none _ profile.model profile.fallbacks c chosen) [
      | inl (m, found, usable, position, same, standby) ↦
          (ground (arith, position), ground (arith, standby, policy))
      | inr (x, skip, next, use_fallback) ↦ absurd (ground (arith, use_fallback refl))
    ]

-- Under a policy other than `use_fallback`, a target never resolves to a fallback, and no stand-ins
-- are handed to the provider.
pub resolve_target_reject :
    (r : Registry) (target : ModelTarget) (res : ResolvedTarget)
    → (unavailable_model_policy r == "use_fallback") ≡ false
    → resolve_target r target ≡ ok res
    → (res.used_fallback ≡ false) × (res.fallback_models ≡ [])
unfolding resolve_target
resolve_target_reject r target res policy h = elim (resolve_target-cases r enabled target res h) [
  | inl exact ↦ exact_alone r target res exact
  | inr route ↦
      let (result, group, name, profile, found) =
        resolve_route-profile r enabled target res route in
      standing_alone r enabled result res group name profile policy found
]
