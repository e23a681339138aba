-- ===== src/Store.antt =====
-- internal/storage/models.go: the model store's types. A time is a number of nanoseconds.
pub mod Layout
pub mod Files
pub mod Activating
pub mod Installing
pub mod Deleting
pub mod Listing
pub mod Names
pub mod Places
pub mod Spared
pub mod Isolation
pub mod Guards
pub mod Kept
pub mod Verified
pub mod Targets
pub mod Activated
pub mod RolledBack
use yllmd.Base.{ℕ, Bool, String, Option, some, List, [], ◌∷◌, ◌++◌, ◌≡◌}
use yllmd.Wire.Bytes.{Bytes}
use yllmd.Disk.Paths.{NodePath}
use yllmd.Disk.Actions.{IoError}

pub record Activation : Type 0 where
  pub model_name : String
  pub version_id : String
  pub previous_target : String

pub record InstallRequest : Type 0 where
  pub model_name : String
  pub version_id : String
  pub source_path : String
  pub sha256 : String
  pub catalog_id : String
  pub activate : Bool

pub record InstallResult : Type 0 where
  pub model_name : String
  pub version_id : String
  pub model_path : NodePath
  pub manifest_path : NodePath
  pub checksum_path : NodePath
  pub activation : Option Activation

pub record RollbackResult : Type 0 where
  pub model_name : String
  pub version_id : String

pub record DeleteResult : Type 0 where
  pub model_name : String
  pub version_id : String
  pub reclaimed_bytes : ℕ

pub record Manifest : Type 0 where
  pub model_name : String
  pub version_id : String
  pub catalog_id : String
  pub sha256 : String
  pub installed_at : ℕ

pub record VersionInfo : Type 0 where
  pub version_id : String
  pub model_path : NodePath
  pub manifest_path : NodePath
  pub checksum_path : NodePath
  pub active : Bool
  pub manifest : Option Manifest

pub record InstalledModelInfo : Type 0 where
  pub model_name : String
  pub active_version : String
  pub versions : List VersionInfo
  pub installed_bytes : ℕ

-- The root, as the components of a cleaned absolute path.
pub record ModelStore : Type 0 where
  pub root : NodePath

pub data StoreError : Type 0 where
  name_required version_required source_required sha256_required names_required : StoreError
  version_exists not_a_directory active_version rollback_version rollback_mismatch : StoreError
  bad_length bad_hex bad_checksum bad_json : StoreError
  missing_model io : IoError → StoreError

-- `json.MarshalIndent` and `json.Unmarshal` at one type.
pub record Codec (A : Type 0) : Type 0 where
  pub encode : A → Bytes
  pub decode : Bytes → Option A

-- What the store takes from other packages: JSON, and the SHA-256 of a file in hexadecimal.
pub record Encodings : Type 0 where
  pub activations : Codec Activation
  pub manifests : Codec Manifest
  pub sha256_hex : Bytes → String
