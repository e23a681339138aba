-- ===== src/Daemon/Models.antt =====
-- internal/daemon/server.go: the actions on models. A handler works on the disk under `modelMu`, and
-- answers with one event, or with an error event; `reloads` is a call of `reloadProvider`.
pub mod Guards
pub mod Artifacts
pub mod Gates
use yllmd.Base.{
  ℕ, Bool, true, false, not, ◌&&◌, String, Option, none, some, List, [], ◌∷◌, map, Result, ok, err,
  is_ok, is_empty, ◌==◌, ◌!=◌, string_eq, if◌then◌else◌,
}
use yllmd.Base.FilePath.{join}
use yllmd.Disk.Paths.{NodePath}
use yllmd.Disk.Actions.{IoError, not_exist, Io, pure, raise, refuse, ◌>>=◌, ◌>>◌, lift, try, ignore}
use yllmd.Disk.{remove_all}
use yllmd.Config.{Config}
use yllmd.Protocol.{Request, RequestError}
use yllmd.Protocol.Models.{
  validate_model_install, validate_model_delete, validate_model_activate, validate_model_versions,
  validate_model_rollback,
}
use yllmd.Registry.{Registry, RegistryError, LocalModel, resolve}
use yllmd.Daemon.Queue.{Server, is_idle}
use yllmd.Store.{
  InstallRequest, InstallResult, Activation, RollbackResult, DeleteResult, VersionInfo,
  InstalledModelInfo, StoreError, active_version, rollback_version, io, Encodings,
}
use yllmd.Store.Layout.{components, new_model_store, current_model_path}
use yllmd.Store.Installing.{install_local_file}
use yllmd.Store.Activating.{activate_version, rollback_latest}
use yllmd.Store.Deleting.{delete_version, delete_model}
use yllmd.Store.Listing.{list_versions, list_installed_models}

-- The codes of the error events.
pub data ModelsRefusal : Type 0 where
  invalid_request model_unavailable daemon_busy install_failed activate_failed : ModelsRefusal
  versions_failed rollback_failed installed_models_failed unknown_models_action : ModelsRefusal
  model_not_qualified license_check_failed license_acceptance_required : ModelsRefusal
  license_acceptance_failed model_not_configured update_failed version_exists : ModelsRefusal
  download_failed : ModelsRefusal
  model_configured delete_failed model_active rollback_protected model_not_installed : ModelsRefusal

pub record InstalledModel : Type 0 where
  pub name : String
  pub configured : Bool
  pub active_version : String
  pub versions : List VersionInfo
  pub installed_bytes : ℕ

pub data ModelsEvent : Type 0 where
  installed updated up_to_date activated rolled_back : String → String → NodePath → ModelsEvent
  deleted : String → String → ℕ → ModelsEvent
  versions : String → List VersionInfo → ModelsEvent
  installed_models : List InstalledModel → ModelsEvent

pub record ModelsAnswer : Type 0 where
  pub event : ModelsEvent
  pub reloads : Bool

-- What the handlers read of the daemon, and the time.
pub record ModelsServer : Type 0 where
  pub cfg : Config
  pub models : Registry
  pub jobs : Server
  pub encodings : Encodings
  pub now : ℕ

abbrev pub Handler : Type 0
Handler = ModelsServer → Request → Io ModelsRefusal ModelsAnswer

-- `if err != nil`, answered with one code.
abbrev pub or_answer : {E A : Type 0} → ModelsRefusal → Result E A → Io ModelsRefusal A
or_answer code (ok a) = pure a
or_answer code (err e) = raise code

abbrev pub always : {E : Type 0} → ModelsRefusal → E → ModelsRefusal
always code e = code

-- `req.Activate`, which is true when it is absent.
abbrev pub wants_activation : Request → Bool
wants_activation req = elim req.activate [ none ↦ true | some b ↦ b ]

unfoldable pub install_model : Handler
install_model s req = do
  or_answer invalid_request (validate_model_install req)
  model ← or_answer model_unavailable (resolve s.models req.model)
  let activate = wants_activation req
  refuse (activate && not (is_idle s.jobs)) daemon_busy
  let request : InstallRequest = record {
    model_name = model.name;
    version_id = req.version;
    source_path = req.file;
    sha256 = req.sha256;
    catalog_id = model.config.catalog_id;
    activate = activate;
  }
  result ←
      lift (always install_failed)
        (install_local_file s.encodings (new_model_store s.cfg) s.now request)
  pure (record {
    event = installed result.model_name result.version_id result.model_path;
    reloads = activate;
  })

unfoldable pub activate_model : Handler
activate_model s req = do
  or_answer invalid_request (validate_model_activate req)
  model ← or_answer model_unavailable (resolve s.models req.model)
  refuse (not (is_idle s.jobs)) daemon_busy
  let store = new_model_store s.cfg
  activation ←
      lift (always activate_failed) (activate_version s.encodings store model.name req.version)
  pure (record {
    event =
        activated activation.model_name activation.version_id
          (current_model_path store activation.model_name);
    reloads = true;
  })

unfoldable pub rollback_model : Handler
rollback_model s req = do
  or_answer invalid_request (validate_model_rollback req)
  model ← or_answer model_unavailable (resolve s.models req.model)
  refuse (not (is_idle s.jobs)) daemon_busy
  let store = new_model_store s.cfg
  result ← lift (always rollback_failed) (rollback_latest s.encodings store model.name)
  pure (record {
    event =
        rolled_back result.model_name result.version_id
          (current_model_path store result.model_name);
    reloads = true;
  })

unfoldable pub list_model_versions : Handler
list_model_versions s req = do
  or_answer invalid_request (validate_model_versions req)
  model ← or_answer model_unavailable (resolve s.models req.model)
  found ←
      lift (always versions_failed) (list_versions s.encodings (new_model_store s.cfg) model.name)
  pure (record { event = versions model.name found; reloads = false })

abbrev installed_model_of : Registry → InstalledModelInfo → InstalledModel
installed_model_of r item = record {
  name = item.model_name;
  configured = is_ok (resolve r item.model_name);
  active_version = item.active_version;
  versions = item.versions;
  installed_bytes = item.installed_bytes;
}

unfoldable pub report_installed_models : Handler
report_installed_models s req = do
  items ←
      lift (always installed_models_failed)
        (list_installed_models s.encodings (new_model_store s.cfg))
  pure (record {
    event = installed_models (map (installed_model_of s.models) items);
    reloads = false;
  })

-- The code of an error of `DeleteVersion` or `DeleteModel`.
unfoldable pub delete_code : StoreError → ModelsRefusal
delete_code active_version = model_active
delete_code rollback_version = rollback_protected
delete_code (io not_exist) = model_not_installed
delete_code _ = delete_failed

unfoldable pub download_dir : Config → String → String
download_dir cfg name =
    if cfg.paths.state_dir == ""
    then join (cfg.paths.model_dir ∷ ".downloads" ∷ name ∷ [])
    else join (cfg.paths.state_dir ∷ "downloads" ∷ name ∷ [])

abbrev deleted_answer : DeleteResult → ModelsAnswer
deleted_answer result = record {
  event = deleted result.model_name result.version_id result.reclaimed_bytes;
  reloads = false;
}

-- The case of a request with a version, and of one without.
unfoldable pub delete_one_version : Handler
delete_one_version s req = do
  result ←
      lift delete_code (delete_version s.encodings (new_model_store s.cfg) req.model req.version)
  pure (deleted_answer result)

unfoldable pub delete_whole_model : Handler
delete_whole_model s req = do
  refuse (is_ok (resolve s.models req.model)) model_configured
  result ← lift delete_code (delete_model (new_model_store s.cfg) req.model)
  ignore (remove_all (components (download_dir s.cfg req.model)))
  pure (deleted_answer result)

unfoldable pub delete_model_request : Handler
delete_model_request s req = do
  or_answer invalid_request (validate_model_delete req)
  if req.version != "" then delete_one_version s req else delete_whole_model s req
