-- ===== src/Store/Layout.antt =====
-- internal/storage/models.go: the names and the folders of the store.
use yllmd.Base.{true, ◌&&◌, ◌||◌, String, [], ◌∷◌, ◌++◌, ◌==◌, string_eq, if◌then◌else◌}
use yllmd.Base.FilePath.{is_slash, clean, join, base, segments, keep_segments}
use mathlib.Core.List.{reverse}
use yllmd.Config.{Config}
use yllmd.Disk.Paths.{NodePath, parent}
use yllmd.Disk.Actions.{IoError, Io}
use yllmd.Disk.{mkdir_all}
use yllmd.Store.{ModelStore}

-- The components of a cleaned absolute path.
unfoldable pub components : String → NodePath
unfolding segments keep_segments
components path = reverse (keep_segments true [] (segments path))

-- `filepath.Join` of a folder and one name without a slash that is not empty and not `.`.
abbrev pub under : NodePath → String → NodePath
under dir part = if part == ".." then parent dir else dir ++ (part ∷ [])

unfoldable pub trim_slashes_left : String → String
trim_slashes_left String.[] = ""
trim_slashes_left (String.◌∷◌ c s) =
    let rest = trim_slashes_left s in if is_slash c then rest else String.◌∷◌ c s

unfoldable pub trim_slashes_right : String → String
trim_slashes_right String.[] = ""
trim_slashes_right (String.◌∷◌ c s) =
    let rest = trim_slashes_right s in if (rest == "") && is_slash c then "" else String.◌∷◌ c rest

unfoldable pub clean_path_part : String → String
unfolding clean base trim_slashes_left trim_slashes_right
clean_path_part value =
    let trimmed = trim_slashes_right (trim_slashes_left (base (clean value))) in
    if (trimmed == ".") || (trimmed == "") then "unnamed" else trimmed

unfoldable pub new_model_store : Config → ModelStore
unfolding components join
new_model_store cfg =
    let root =
      if cfg.paths.model_dir == ""
      then join (cfg.paths.state_dir ∷ "models" ∷ [])
      else cfg.paths.model_dir in
    record { root = components root }

unfoldable pub model_dir : ModelStore → String → NodePath
unfolding clean_path_part
model_dir s name = under s.root (clean_path_part name)

abbrev pub current_dir : ModelStore → String → NodePath
current_dir s name = under (model_dir s name) "current"

abbrev pub current_model_path : ModelStore → String → NodePath
current_model_path s name = under (current_dir s name) "model.gguf"

abbrev pub version_dir : ModelStore → String → String → NodePath
version_dir s name id = under (under (model_dir s name) "versions") (clean_path_part id)

abbrev pub version_model_path : ModelStore → String → String → NodePath
version_model_path s name id = under (version_dir s name id) "model.gguf"

abbrev pub manifest_path : ModelStore → String → String → NodePath
manifest_path s name id = under (version_dir s name id) "manifest.json"

abbrev pub checksum_path : ModelStore → String → String → NodePath
checksum_path s name id = under (version_dir s name id) "checksum.sha256"

abbrev pub rollback_path : ModelStore → String → NodePath
rollback_path s name = under (model_dir s name) "rollback.json"

unfoldable pub ensure_layout : ModelStore → String → Io IoError (Unit {0})
ensure_layout s name = mkdir_all (under (model_dir s name) "versions")
