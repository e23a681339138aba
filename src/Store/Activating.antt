-- ===== src/Store/Activating.antt =====
-- internal/storage/models.go: the active version of a model, and the way back to the one before.
use yllmd.Base.{
  Bool, true, false, not, String, [], ◌∷◌, Result, ok, err, ◌==◌, ◌!=◌, string_eq, if◌then◌else◌,
}
use yllmd.Base.FilePath.{clean, join, base}
use yllmd.Disk.Paths.{NodePath}
use yllmd.Disk.Actions.{
  Node, folder, IoError, Io, pure, raise, refuse, ◌>>=◌, ◌>>◌, lift, try, ignore,
}
use yllmd.Disk.{stat, read_link, symlink, remove, rename, mkdir_all}
use yllmd.Store.{
  ModelStore, Activation, RollbackResult, StoreError, not_a_directory, missing_model,
  rollback_mismatch, io, Encodings,
}
use yllmd.Store.Layout.{
  clean_path_part, model_dir, current_dir, version_dir, version_model_path, rollback_path, under,
}
use yllmd.Store.Files.{is_not_exist, write_json, read_json}

abbrev pub is_dir : Node → Bool
is_dir folder = true
is_dir _ = false

-- `os.Stat`, and the error for what is no folder.
unfoldable pub require_dir : NodePath → Io StoreError (Unit {0})
require_dir path = do info ← lift io (stat path); refuse (not (is_dir info)) not_a_directory

-- The version that a link target names.
unfoldable pub version_of : String → String
version_of target = base (clean target)

unfoldable pub active_version : ModelStore → String → Io IoError String
active_version s name = do target ← read_link (current_dir s name); pure (version_of target)

-- `previous, err := os.Readlink(current)`, where no link is the empty text.
abbrev pub link_or_empty : Result IoError String → Io StoreError String
link_or_empty (ok target) = pure target
link_or_empty (err e) = if is_not_exist e then pure "" else raise (io e)

-- `if err := os.Rename(tmp, current); err != nil { _ = os.Remove(tmp); return err }`
abbrev pub or_remove : NodePath → Result IoError (Unit {0}) → Io IoError (Unit {0})
or_remove tmp (ok _) = pure tt
or_remove tmp (err e) = do ignore (remove tmp); raise e

unfoldable pub replace_link : NodePath → NodePath → Io IoError (Unit {0})
replace_link tmp current = do moved ← try (rename tmp current); or_remove tmp moved

unfoldable pub activate_version :
    Encodings → ModelStore → String → String → Io StoreError Activation
activate_version e s name id = do
  require_dir (version_dir s name id)
  lift missing_model (stat (version_model_path s name id))
  lift io (mkdir_all (model_dir s name))
  let current = current_dir s name
  found ← try (read_link current)
  previous ← link_or_empty found
  let tmp = under (model_dir s name) "current.next"
  ignore (remove tmp)
  lift io (symlink (join ("versions" ∷ clean_path_part id ∷ [])) tmp)
  lift io (replace_link tmp current)
  let activation : Activation = record {
    model_name = clean_path_part name;
    version_id = clean_path_part id;
    previous_target = previous;
  }
  lift io (write_json e.activations (rollback_path s name) activation)
  pure activation

unfoldable pub rollback_activation : ModelStore → Activation → Io IoError (Unit {0})
rollback_activation s activation =
    let current = current_dir s activation.model_name in
    let tmp = under (model_dir s activation.model_name) "current.rollback" in
    if activation.previous_target == ""
    then remove current
    else do ignore (remove tmp); symlink activation.previous_target tmp; replace_link tmp current

-- The version that a link target names, if there is one.
unfoldable pub version_or_empty : String → String
version_or_empty target = if target == "" then "" else version_of target

unfoldable pub rollback_latest : Encodings → ModelStore → String → Io StoreError RollbackResult
rollback_latest e s name = do
  let model_name = clean_path_part name
  activation ← read_json e.activations (rollback_path s model_name)
  refuse (activation.model_name != model_name) rollback_mismatch
  lift io (rollback_activation s activation)
  ignore (remove (rollback_path s model_name))
  pure
      (record { model_name = model_name; version_id = version_or_empty activation.previous_target })

unfoldable pub rollback_target : Encodings → ModelStore → String → Io StoreError String
rollback_target e s name = do
  activation ← read_json e.activations (rollback_path s name)
  pure (version_or_empty activation.previous_target)
