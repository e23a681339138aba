-- ===== src/Registry.antt =====
-- internal/models/registry.go: names and aliases of the configured models, and the routing of a target
-- to a model with its fallbacks. A Go map's order is the order of the association list. Left out are
-- the fields that only listings read: `byName`, `orderedNames` and a model's `Descriptor`.
pub mod Routing
pub mod Resolution
pub mod Targets
use yllmd.Base.{
  Bool, true, false, not, ◌&&◌, ◌||◌, String, Option, none, some, List, [], ◌∷◌, ◌++◌, Result, ok,
  err, ◌>>=◌, ◌>>◌, reject, is_ok, ◌==◌, ◌!=◌, string_eq, if◌then◌else◌,
}
use yllmd.Base.Dict.{Dict, lookup, insert}
use yllmd.Base.FilePath.{join}
use yllmd.Config.{Config, ModelConfig, is_enabled}
use yllmd.Protocol.{ModelTarget}

pub record LocalModel : Type 0 where
  pub name : String
  pub config : ModelConfig
  pub model_path : String

pub record Registry : Type 0 where
  pub cfg : Config
  pub by_identifier : Dict LocalModel

pub data RegistryError : Type 0 where
  not_configured : String → RegistryError
  model_with_route profile_without_group : RegistryError
  unknown_group no_default_profile : String → RegistryError
  unknown_profile no_available_model : String → String → RegistryError
  disabled : String → RegistryError

unfoldable pub resolve_model_path : Config → String → ModelConfig → String
resolve_model_path cfg name model =
    if model.model_path != ""
    then model.model_path
    else join (cfg.paths.model_dir ∷ name ∷ "current" ∷ "model.gguf" ∷ [])

-- `for _, alias := range model.Aliases { registry.byIdentifier[alias] = local }`
unfoldable pub add_aliases : List String → LocalModel → Dict LocalModel → Dict LocalModel
add_aliases [] local m = m
add_aliases (alias ∷ aliases) local m = add_aliases aliases local (insert alias local m)

unfoldable pub add_models : Config → Dict ModelConfig → Dict LocalModel → Dict LocalModel
unfolding add_aliases resolve_model_path
add_models cfg [] m = m
add_models cfg ((name, model) ∷ rest) m =
    let local : LocalModel = record {
      name = name;
      config = model;
      model_path = resolve_model_path cfg name model;
    } in
    add_models cfg rest (add_aliases model.aliases local (insert name local m))

unfoldable pub new_registry : Config → Registry
unfolding add_models
new_registry cfg = record { cfg = cfg; by_identifier = add_models cfg cfg.models [] }

unfoldable pub resolve : Registry → String → Result RegistryError LocalModel
resolve r identifier = elim (lookup identifier r.by_identifier) [
  | none ↦ err (not_configured identifier)
  | some model ↦ ok model
]

pub record ResolvedTarget : Type 0 where
  pub requested_group : String
  pub requested_profile : String
  pub requested_model : String
  pub resolved_group : String
  pub resolved_profile : String
  pub resolved_model : String
  pub used_default_group : Bool
  pub used_default_profile : Bool
  pub used_fallback : Bool
  pub fallback_from : String
  pub fallback_models : List String
