-- ===== src/Config/Validation.antt =====
-- internal/config/config.go: `Config.Validate`, which collects its errors. `sortedKeys` is the order of the
-- association lists, which are taken as sorted by key.
use Prim.Native.Char.{code}
use yllmd.Base.{
  ℕ, suc, ℤ, pos, negsuc, is_nonpositive, Bool, true, false, not, ◌&&◌, ◌||◌, String, Option, none,
  some, List, [], ◌∷◌, ◌++◌, is_empty, contains, ltb, leb, ◌==◌, ◌!=◌, nat_eq, string_eq,
  if◌then◌else◌,
}
use yllmd.Base.Dict.{Dict, lookup, has_key}
use yllmd.Config.{ModelConfig, ProfileConfig, GroupConfig, RemoteProviderConfig, Config}

-- Each with the name of what it is about.
pub data ConfigError : Type 0 where
  operating_mode socket_path queue_policy queue_depth default_timeout idle_cooldown : ConfigError
  max_loaded_models update_policy no_models resident_model profile_policy model_policy : ConfigError
  default_provider default_group default_profile : ConfigError
  bad_identifier claimed_twice model_source backend_type backend_command : String → ConfigError
  backend_transport context_tokens threads gpu_layers no_profiles group_default :
      String → ConfigError
  unknown_model unknown_fallback repeats_primary repeats_fallback remote_key : String → ConfigError

-- `if b { errs = append(errs, e) }`
abbrev pub fault : Bool → ConfigError → List ConfigError
fault true e = e ∷ []
fault false e = []

-- `[a-z0-9]`, and `[a-z0-9._-]`
abbrev pub starts_identifier : ℕ → Bool
starts_identifier c = (leb 97 c && leb c 122) || (leb 48 c && leb c 57)

abbrev pub continues_identifier : ℕ → Bool
continues_identifier c = starts_identifier c || (c == 46) || (c == 95) || (c == 45)

-- The characters after the first, at most `room` of them.
unfoldable pub tail_matches : ℕ → String → Bool
tail_matches room String.[] = true
tail_matches ℕ.zero (String.◌∷◌ c s) = false
tail_matches (suc room) (String.◌∷◌ c s) =
    let rest = tail_matches room s in continues_identifier (code c) && rest

-- `identifierPattern`
unfoldable pub identifier_pattern : String → Bool
unfolding tail_matches
identifier_pattern String.[] = false
identifier_pattern (String.◌∷◌ c s) = starts_identifier (code c) && tail_matches 63 s

unfoldable pub validate_identifier : String → List ConfigError
unfolding identifier_pattern
validate_identifier value = fault (not (identifier_pattern value)) (bad_identifier value)

unfoldable pub supported_update_policy : String → Bool
supported_update_policy policy =
    (policy == "manual") || (policy == "notify") || (policy == "download") || (policy == "auto")

-- `i < -1`
abbrev below_minus_one : ℤ → Bool
below_minus_one (pos n) = false
below_minus_one (negsuc n) = ltb 0 n

unfoldable pub validate_model : String → ModelConfig → List ConfigError
validate_model name model =
    fault ((model.catalog_id == "") && (model.model_path == "")) (model_source name)
    ++ (fault (model.backend.kind != "process") (backend_type name)
        ++ (fault (model.backend.command == "") (backend_command name)
            ++ (fault (model.backend.transport != "stdio") (backend_transport name)
                ++ (fault (is_nonpositive model.runtime.context_tokens) (context_tokens name)
                    ++ (fault (is_nonpositive model.runtime.threads) (threads name)
                        ++ fault (below_minus_one model.runtime.gpu_layers) (gpu_layers name))))))

-- The model that claims an alias.
unfoldable pub alias_owner : Dict ModelConfig → String → Option String
alias_owner [] identifier = none
alias_owner ((name, model) ∷ rest) identifier =
    let later = alias_owner rest identifier in
    if contains model.aliases identifier then some name else later

unfoldable pub resolve_model_reference : Dict ModelConfig → String → Option String
unfolding alias_owner
resolve_model_reference models identifier =
    if has_key identifier models then some identifier else alias_owner models identifier

-- The map of claimed identifiers; who claimed one goes into the message only.
abbrev pub claim : List String → String → List ConfigError × List String
claim claimed identifier =
    if contains claimed identifier
    then (claimed_twice identifier ∷ [], claimed)
    else ([], identifier ∷ claimed)

unfoldable pub validate_aliases : List String → List String → List ConfigError × List String
unfolding validate_identifier
validate_aliases claimed [] = ([], claimed)
validate_aliases claimed (alias ∷ aliases) =
    let (twice, claimed') = claim claimed alias in
    let (errors, claimed'') = validate_aliases claimed' aliases in
    (validate_identifier alias ++ (twice ++ errors), claimed'')

unfoldable pub validate_models : List String → Dict ModelConfig → List ConfigError
unfolding validate_identifier validate_aliases validate_model
validate_models claimed [] = []
validate_models claimed ((name, model) ∷ rest) =
    let (twice, claimed') = claim claimed name in
    let (errors, claimed'') = validate_aliases claimed' model.aliases in
    validate_identifier name
    ++ (twice ++ (errors ++ (validate_model name model ++ validate_models claimed'' rest)))

-- The fallbacks of a profile; `primary` is what its model resolves to, or the empty text.
unfoldable pub validate_fallbacks :
    Dict ModelConfig → String → List String → List String → List ConfigError
unfolding resolve_model_reference validate_identifier
validate_fallbacks models primary seen [] = []
validate_fallbacks models primary seen (fallback ∷ rest) =
    elim (resolve_model_reference models fallback) [
      | none ↦ unknown_fallback fallback ∷ validate_fallbacks models primary seen rest
      | some resolved ↦
          fault (resolved == primary) (repeats_primary fallback)
          ++ (fault (contains seen resolved) (repeats_fallback fallback)
              ++ (validate_identifier fallback
                  ++ validate_fallbacks models primary (resolved ∷ seen) rest))
    ]

abbrev pub or_empty : Option String → String
or_empty none = ""
or_empty (some name) = name

abbrev pub is_missing : {A : Type 0} → Option A → Bool
is_missing none = true
is_missing (some a) = false

unfoldable pub validate_profiles : Dict ModelConfig → Dict ProfileConfig → List ConfigError
unfolding resolve_model_reference validate_identifier validate_fallbacks
validate_profiles models [] = []
validate_profiles models ((name, profile) ∷ rest) =
    let primary = resolve_model_reference models profile.model in
    validate_identifier name
    ++ (fault (is_missing primary) (unknown_model profile.model)
        ++ (validate_fallbacks models (or_empty primary) [] profile.fallbacks
            ++ validate_profiles models rest))

unfoldable pub validate_groups : Dict ModelConfig → Dict GroupConfig → List ConfigError
unfolding validate_identifier validate_profiles
validate_groups models [] = []
validate_groups models ((name, group) ∷ rest) =
    validate_identifier name
    ++ (fault (is_empty group.profiles) (no_profiles name)
        ++ (fault
              ((group.default_profile != "") && not (has_key group.default_profile group.profiles))
              (group_default name)
            ++ (validate_profiles models group.profiles ++ validate_groups models rest)))

-- The default route, whose profile is the group's default where it names none.
unfoldable pub validate_default : Config → List ConfigError
validate_default c = elim (lookup c.routing.default.group c.routing.groups) [
  | none ↦ default_group ∷ []
  | some group ↦
      let named = c.routing.default.profile in
      let profile = if named == "" then group.default_profile else named in
      if profile == ""
      then default_profile ∷ []
      else fault (not (has_key profile group.profiles)) default_profile
]

unfoldable pub validate_remotes : Dict RemoteProviderConfig → List ConfigError
validate_remotes [] = []
validate_remotes ((name, p) ∷ rest) =
    fault (p.enabled && ((p.api_key_env == "") && (p.key_file == ""))) (remote_key name)
    ++ validate_remotes rest

-- `i != 1`
abbrev not_one : ℤ → Bool
not_one (pos n) = n != 1
not_one (negsuc n) = true

-- The checks on single fields before the models.
unfoldable pub validate_fields : Config → List ConfigError
unfolding supported_update_policy
validate_fields c =
    let mode = c.operating_mode in
    fault ((mode != "") && ((mode != "user") && (mode != "daemon"))) operating_mode
    ++ (fault (c.server.socket_path == "") socket_path
        ++ (fault (c.queue.policy != "fifo") queue_policy
            ++ (fault (is_nonpositive c.queue.max_depth) queue_depth
                ++ (fault (is_nonpositive c.queue.default_timeout) default_timeout
                    ++ (fault (is_nonpositive c.model_lifecycle.idle_cooldown) idle_cooldown
                        ++ (fault (not_one c.model_lifecycle.max_loaded_models) max_loaded_models
                            ++ (fault
                                  ((c.updates.default_policy == "")
                                    || not (supported_update_policy c.updates.default_policy))
                                  update_policy
                                ++ fault (is_empty c.models) no_models)))))))

-- The checks on single fields of the routing.
unfoldable pub validate_policies : Config → List ConfigError
unfolding resolve_model_reference
validate_policies c =
    let profile = c.routing.unavailable_profile_policy in
    let model = c.routing.unavailable_model_policy in
    let provider = c.routing.default_provider in
    let resident = c.model_lifecycle.resident_model in
    fault ((resident != "") && is_missing (resolve_model_reference c.models resident))
      resident_model
    ++ (fault ((profile != "") && (profile != "reject")) profile_policy
        ++ (fault ((model != "") && ((model != "reject") && (model != "use_fallback"))) model_policy
            ++ fault ((provider != "") && (provider != "local")) default_provider))

unfoldable pub validate : Config → List ConfigError
unfolding validate_fields validate_models validate_policies validate_groups validate_default
    validate_remotes
validate c =
    validate_fields c
    ++ (validate_models [] c.models
        ++ (validate_policies c
            ++ (validate_groups c.models c.routing.groups
                ++ (validate_default c ++ validate_remotes c.remote_providers))))
