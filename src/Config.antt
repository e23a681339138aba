-- ===== src/Config.antt =====
-- internal/config/config.go: the configuration's types. A Go map is an association list; durations
-- are nanoseconds.
pub mod Validation
pub mod Routes
use yllmd.Base.{ℤ, Bool, true, String, Option, none, some, List}
use yllmd.Base.Dict.{Dict}

pub record LocalBackendConfig : Type 0 where
  pub kind : String
  pub command : String
  pub transport : String

pub record LocalRuntimeSettings : Type 0 where
  pub context_tokens : ℤ
  pub threads : ℤ
  pub gpu_layers : ℤ

pub record ModelConfig : Type 0 where
  pub catalog_id : String
  pub model_path : String
  pub aliases : List String
  pub enabled : Option Bool
  pub backend : LocalBackendConfig
  pub runtime : LocalRuntimeSettings

pub record QueueConfig : Type 0 where
  pub policy : String
  pub max_depth : ℤ
  pub default_timeout : ℤ

pub record ModelLifecycleConfig : Type 0 where
  pub resident_model : String
  pub idle_cooldown : ℤ
  pub max_loaded_models : ℤ

pub record PathsConfig : Type 0 where
  pub state_dir : String
  pub model_dir : String
  pub runtime_dir : String
  pub log_dir : String

pub record ProfileConfig : Type 0 where
  pub model : String
  pub fallbacks : List String

pub record GroupConfig : Type 0 where
  pub default_profile : String
  pub profiles : Dict ProfileConfig

pub record RouteReference : Type 0 where
  pub group : String
  pub profile : String

pub record RoutingConfig : Type 0 where
  pub default : RouteReference
  pub unavailable_profile_policy : String
  pub unavailable_model_policy : String
  pub groups : Dict GroupConfig
  pub default_provider : String

pub record RemoteProviderConfig : Type 0 where
  pub enabled : Bool
  pub api_key_env : String
  pub key_file : String

pub record ServerConfig : Type 0 where
  pub socket_path : String
  pub socket_mode : String
  pub socket_group : String

pub record UpdatesConfig : Type 0 where
  pub check_interval : ℤ
  pub default_policy : String

pub record Config : Type 0 where
  pub operating_mode : String
  pub server : ServerConfig
  pub queue : QueueConfig
  pub model_lifecycle : ModelLifecycleConfig
  pub paths : PathsConfig
  pub models : Dict ModelConfig
  pub routing : RoutingConfig
  pub updates : UpdatesConfig
  pub remote_providers : Dict RemoteProviderConfig

-- `ModelConfig.IsEnabled`
unfoldable pub is_enabled : ModelConfig → Bool
is_enabled m = elim m.enabled [ none ↦ true | some b ↦ b ]
