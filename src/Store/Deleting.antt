-- ===== src/Store/Deleting.antt =====
-- internal/storage/models.go: deleting a version, or a model with all its versions.
use yllmd.Base.{Bool, false, not, ◌||◌, String, Result, ok, err, ◌==◌, string_eq}
use yllmd.Disk.Paths.{NodePath}
use yllmd.Disk.Actions.{IoError, Io, pure, raise, refuse, ◌>>=◌, ◌>>◌, lift, try}
use yllmd.Disk.{remove_all}
use yllmd.Store.{
  ModelStore, DeleteResult, StoreError, name_required, names_required, active_version,
  rollback_version, io, Encodings,
}
use yllmd.Store.Layout.{clean_path_part, model_dir, version_dir}
use yllmd.Store.Files.{is_not_exist, directory_size}
use yllmd.Store.Activating.{active_version as read_active, rollback_target, require_dir}

-- `if active, err := s.ActiveVersion(...); err == nil && active == versionID { ... } else if err != nil
-- && !os.IsNotExist(err) { ... }`
abbrev pub refuse_active : String → Result IoError String → Io StoreError (Unit {0})
refuse_active id (ok active) = refuse (active == id) active_version
refuse_active id (err e) = refuse (not (is_not_exist e)) (io e)

-- Here the error is the store's: it may come from the record's text.
abbrev pub is_missing : StoreError → Bool
is_missing (io e) = is_not_exist e
is_missing _ = false

abbrev pub refuse_rollback : String → Result StoreError String → Io StoreError (Unit {0})
refuse_rollback id (ok target) = refuse (target == id) rollback_version
refuse_rollback id (err e) = refuse (not (is_missing e)) e

abbrev pub reclaim : NodePath → String → String → Io StoreError DeleteResult
reclaim path name id = do
  reclaimed ← lift io (directory_size path)
  lift io (remove_all path)
  pure (record { model_name = name; version_id = id; reclaimed_bytes = reclaimed })

unfoldable pub delete_version :
    Encodings → ModelStore → String → String → Io StoreError DeleteResult
delete_version e s name id = do
  let model_name = clean_path_part name
  let version_id = clean_path_part id
  refuse ((model_name == "unnamed") || (version_id == "unnamed")) names_required
  let dir = version_dir s model_name version_id
  require_dir dir
  active ← try (read_active s model_name)
  refuse_active version_id active
  rollback ← try (rollback_target e s model_name)
  refuse_rollback version_id rollback
  reclaim dir model_name version_id

-- `if _, err := s.ActiveVersion(...); err == nil { ... } else if !os.IsNotExist(err) { ... }`
abbrev pub must_be_inactive : Result IoError String → Io StoreError (Unit {0})
must_be_inactive (ok active) = raise active_version
must_be_inactive (err e) = refuse (not (is_not_exist e)) (io e)

unfoldable pub delete_model : ModelStore → String → Io StoreError DeleteResult
delete_model s name = do
  let model_name = clean_path_part name
  refuse (model_name == "unnamed") name_required
  let dir = model_dir s model_name
  require_dir dir
  active ← try (read_active s model_name)
  must_be_inactive active
  reclaim dir model_name ""
