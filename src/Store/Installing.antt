-- ===== src/Store/Installing.antt =====
-- internal/storage/models.go: installing a version from a local file.
use yllmd.Base.{
  ℕ, Bool, true, false, String, ◌<>◌, Option, none, some, Result, ok, err, ◌==◌, string_eq,
  if◌then◌else◌,
}
use yllmd.Base.Text.{trim_space}
use yllmd.Disk.Paths.{NodePath}
use yllmd.Disk.Actions.{Node, IoError, Io, pure, raise, refuse, ◌>>=◌, ◌>>◌, lift, try, ignore}
use yllmd.Disk.{stat, mkdir_temp, remove_all, rename}
use yllmd.Store.{
  ModelStore, Activation, InstallRequest, InstallResult, Manifest, StoreError, name_required,
  version_required, source_required, sha256_required, version_exists, io, Encodings,
}
use yllmd.Store.Layout.{
  clean_path_part, components, model_dir, version_dir, version_model_path, manifest_path,
  checksum_path, ensure_layout, under,
}
use yllmd.Store.Files.{
  is_not_exist, normal_checksum, verify_sha256, copy_file, write_manifest, write_checksum,
}
use yllmd.Store.Activating.{activate_version}

-- `if _, err := os.Stat(versionDir); err == nil { ... } else if !os.IsNotExist(err) { ... }`
abbrev pub must_be_missing : Result IoError Node → Io StoreError (Unit {0})
must_be_missing (ok info) = raise version_exists
must_be_missing (err e) = if is_not_exist e then pure tt else raise (io e)

-- `defer func() { if cleanup { _ = os.RemoveAll(tmpDir) } }()`
abbrev pub or_remove_all : {A : Type 0} → NodePath → Result StoreError A → Io StoreError A
or_remove_all tmp (ok a) = pure a
or_remove_all tmp (err e) = do ignore (remove_all tmp); raise e

unfoldable pub cleaning : {A : Type 0} → NodePath → Io StoreError A → Io StoreError A
cleaning tmp m = do done ← try m; or_remove_all tmp done

-- The temporary folder's files.
unfoldable pub fill : Encodings → NodePath → InstallRequest → Manifest → Io StoreError (Unit {0})
fill e tmp_dir request manifest = do
  let tmp_model = under tmp_dir "model.gguf"
  lift io (copy_file tmp_model (components request.source_path))
  verify_sha256 e tmp_model request.sha256
  lift io (write_manifest e (under tmp_dir "manifest.json") manifest)
  lift io (write_checksum (under tmp_dir "checksum.sha256") manifest.sha256)

-- The checks before anything is written.
unfoldable pub check_request : InstallRequest → Io StoreError (Unit {0})
check_request request = do
  refuse (clean_path_part request.model_name == "unnamed") name_required
  refuse (clean_path_part request.version_id == "unnamed") version_required
  refuse (trim_space request.source_path == "") source_required
  refuse (request.sha256 == "") sha256_required

abbrev pub request_manifest : ℕ → InstallRequest → Manifest
request_manifest now request = record {
  model_name = clean_path_part request.model_name;
  version_id = clean_path_part request.version_id;
  catalog_id = request.catalog_id;
  sha256 = normal_checksum request.sha256;
  installed_at = now;
}

-- The version's folder, filled beside its place and moved there.
unfoldable pub place_version :
    Encodings → ModelStore → ℕ → InstallRequest → Io StoreError (Unit {0})
place_version e s now request = do
  let model_name = clean_path_part request.model_name
  let version_id = clean_path_part request.version_id
  lift io (ensure_layout s model_name)
  let dir = version_dir s model_name version_id
  found ← try (stat dir)
  must_be_missing found
  tmp_dir ← lift io (mkdir_temp (model_dir s model_name) (".install-" <> version_id <> "-"))
  cleaning tmp_dir
      (fill e tmp_dir request (request_manifest now request) >> lift io (rename tmp_dir dir))

abbrev pub activate_if :
    Bool → Encodings → ModelStore → String → String → Io StoreError (Option Activation)
activate_if false e s name id = pure none
activate_if true e s name id = do activation ← activate_version e s name id; pure (some activation)

unfoldable pub install_local_file :
    Encodings → ModelStore → ℕ → InstallRequest → Io StoreError InstallResult
install_local_file e s now request = do
  check_request request
  place_version e s now request
  let model_name = clean_path_part request.model_name
  let version_id = clean_path_part request.version_id
  activation ← activate_if request.activate e s model_name version_id
  pure (record {
    model_name = model_name;
    version_id = version_id;
    model_path = version_model_path s model_name version_id;
    manifest_path = manifest_path s model_name version_id;
    checksum_path = checksum_path s model_name version_id;
    activation = activation;
  })
