-- ===== src/Daemon/Models/Artifacts.antt =====
-- internal/daemon/server.go: `installCatalogArtifact`, which downloads and installs what the catalogue
-- names. The progress events of the download are left out.
use yllmd.Base.{
  Bool, true, false, not, ◌&&◌, String, ◌<>◌, Option, none, some, Result, ok, err, is_ok, is_empty,
  ◌==◌, string_eq, if◌then◌else◌,
}
use yllmd.Base.FilePath.{joined}
use yllmd.Catalog.{Catalog, Family, Variant, Artifact, variant}
use yllmd.Disk.Paths.{NodePath}
use yllmd.Disk.Actions.{Node, IoError, Io, pure, raise, refuse, ◌>>=◌, ◌>>◌, lift, try, ignore}
use yllmd.Disk.{stat, remove}
use yllmd.Download.Request.{Outside}
use yllmd.Download.{download}
use yllmd.Licenses.{LicenseAcceptance, new_license_store, accept, accepted}
use yllmd.Protocol.{Request}
use yllmd.Protocol.Models.{validate_model_download, validate_model_update}
use yllmd.Registry.{resolve}
use yllmd.Daemon.Queue.{is_idle}
use yllmd.Store.{InstallRequest, Codec}
use yllmd.Store.Layout.{new_model_store, version_dir, version_model_path}
use yllmd.Store.Files.{is_not_exist}
use yllmd.Store.Activating.{active_version, activate_version}
use yllmd.Store.Installing.{install_local_file}
use yllmd.Store.Listing.{list_versions, text_or_empty}
use yllmd.Daemon.Models.{
  ModelsRefusal, invalid_request, model_unavailable, daemon_busy, install_failed,
  model_not_qualified, license_check_failed, license_acceptance_required, license_acceptance_failed,
  model_not_configured, update_failed, version_exists, download_failed, model_not_installed,
  ModelsAnswer, installed, updated, up_to_date, ModelsServer, or_answer, always, download_dir,
}

-- What this handler reads besides: the catalogue, the licences' records and the downloader.
pub record ArtifactServer : Type 0 where
  pub base : ModelsServer
  pub catalog : Catalog
  pub acceptances : Codec LicenseAcceptance
  pub outside : Outside
  pub allow_http : Bool

abbrev pub known : Option (Family × Variant) → Io ModelsRefusal (Family × Variant)
known none = raise model_unavailable
known (some found) = pure found

-- `variant.Status != "available" || variant.Artifact == nil`
abbrev pub qualified : Bool → Option Artifact → Io ModelsRefusal Artifact
qualified true (some a) = pure a
qualified _ _ = raise model_not_qualified

-- What follows when the family's licence wants an acceptance.
unfoldable pub require_license : ArtifactServer → Family → Request → Io ModelsRefusal (Unit {0})
require_license s family req = do
  let store = new_license_store s.base.cfg
  (current, _) ←
      lift (always license_check_failed)
        (accepted s.acceptances store family.id family.license.name family.license.terms_url)
  refuse (not current && not req.license_accepted) license_acceptance_required
  if current
      then pure tt
      else lift (always license_acceptance_failed) (
          accept s.acceptances store s.base.now family.id family.license.name
            family.license.terms_url s.catalog.catalog_version)
        >> pure tt

abbrev pub wants_artifact_active : Request → Bool
wants_artifact_active req = elim req.activate [ none ↦ false | some b ↦ b ]

unfoldable pub check_activation : ArtifactServer → Variant → Bool → Io ModelsRefusal (Unit {0})
check_activation s v activate = do
  refuse (activate && not (is_ok (resolve s.base.models v.id))) model_not_configured
  refuse (activate && not (is_idle s.base.jobs)) daemon_busy

unfoldable pub check_update : ArtifactServer → Variant → Bool → Io ModelsRefusal (Unit {0})
check_update s v update = if not update then pure tt else do
  versions ←
      lift (always update_failed) (list_versions s.base.encodings (new_model_store s.base.cfg) v.id)
  refuse (is_empty versions) model_not_installed

-- The path as a text.
abbrev pub text_of : NodePath → String
text_of p = "/" <> joined p

unfoldable pub fetch_artifact :
    ArtifactServer → Bool → Bool → Variant → Artifact → Io ModelsRefusal ModelsAnswer
fetch_artifact s update activate v a = do
  path ←
      lift (always download_failed)
        (download s.outside s.allow_http a (download_dir s.base.cfg v.id))
  let request : InstallRequest = record {
    model_name = v.id;
    version_id = a.revision;
    source_path = text_of path;
    sha256 = a.sha256;
    catalog_id = v.id;
    activate = activate;
  }
  result ←
      lift (always install_failed)
        (install_local_file s.base.encodings (new_model_store s.base.cfg) s.base.now request)
  ignore (remove path)
  pure (record {
    event =
        (if update then updated else installed) result.model_name result.version_id
          result.model_path;
    reloads = activate;
  })

-- `if activeVersion != versionID { ... }`; whether the provider is reloaded.
abbrev switch_to :
    ArtifactServer → Variant → Artifact → Result IoError String → Io ModelsRefusal Bool
switch_to s v a active =
    if text_or_empty active == a.revision
    then pure false
    else lift (always update_failed)
        (activate_version s.base.encodings (new_model_store s.base.cfg) v.id a.revision)
      >> pure true

unfoldable pub present_artifact :
    ArtifactServer → Bool → Bool → Variant → Artifact → Io ModelsRefusal ModelsAnswer
present_artifact s update activate v a = do
  let store = new_model_store s.base.cfg
  refuse (not update) version_exists
  reloads ← if not activate then pure false else try (active_version store v.id) >>= switch_to s v a
  pure (record {
    event = up_to_date v.id a.revision (version_model_path store v.id a.revision);
    reloads = reloads;
  })

abbrev pub place_artifact :
    ArtifactServer
    → Bool
    → Bool
    → Variant
    → Artifact
    → Result IoError Node
    → Io ModelsRefusal ModelsAnswer
place_artifact s update activate v a (ok node) = present_artifact s update activate v a
place_artifact s update activate v a (err e) =
    if is_not_exist e then fetch_artifact s update activate v a else raise install_failed

unfoldable pub install_catalog_artifact :
    ArtifactServer → Bool → Request → Io ModelsRefusal ModelsAnswer
install_catalog_artifact s update req = do
  or_answer invalid_request
      (if update then validate_model_update req else validate_model_download req)
  (family, v) ← known (variant s.catalog req.model)
  a ← qualified (v.status == "available") v.artifact
  if family.license.acceptance_required then require_license s family req else pure tt
  let activate = wants_artifact_active req
  check_activation s v activate
  check_update s v update
  info ← try (stat (version_dir (new_model_store s.base.cfg) v.id a.revision))
  place_artifact s update activate v a info
