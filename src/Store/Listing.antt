-- ===== src/Store/Listing.antt =====
-- internal/storage/models.go: what is installed.
use yllmd.Base.{
  Bool, false, not, ◌||◌, String, Option, none, some, List, [], ◌∷◌, Result, ok, err, is_empty,
  ◌==◌, string_eq, if◌then◌else◌, nat_eq,
}
use Prim.Native.Char.{code}
use yllmd.Base.Text.{text_ltb}
use yllmd.Disk.Actions.{Node, IoError, Io, pure, raise, ◌>>=◌, lift, try}
use yllmd.Disk.{read_dir}
use yllmd.Store.{ModelStore, Manifest, VersionInfo, InstalledModelInfo, StoreError, io, Encodings}
use yllmd.Store.Layout.{
  clean_path_part, model_dir, version_model_path, manifest_path, checksum_path, under,
}
use yllmd.Store.Files.{is_not_exist, read_manifest, directory_size}
use yllmd.Store.Activating.{active_version, is_dir}
use yllmd.Store.Deleting.{is_missing}

-- `entries, err := os.ReadDir(...)`, where a missing folder has no entries.
abbrev pub entries_or_none :
    Result IoError (List (String × Node)) → Io StoreError (List (String × Node))
entries_or_none (ok entries) = pure entries
entries_or_none (err e) = if is_not_exist e then pure [] else raise (io e)

-- `active, _ := s.ActiveVersion(...)`
abbrev pub text_or_empty : Result IoError String → String
text_or_empty (ok text) = text
text_or_empty (err e) = ""

-- `if err != nil && !os.IsNotExist(err) { return nil, err }`
abbrev manifest_or_none : Result StoreError Manifest → Io StoreError (Option Manifest)
manifest_or_none (ok manifest) = pure (some manifest)
manifest_or_none (err e) = if is_missing e then pure none else raise e

unfoldable pub version_info :
    Encodings → ModelStore → String → String → String → Io StoreError VersionInfo
version_info e s name active id = do
  read ← try (read_manifest e (manifest_path s name id))
  manifest ← manifest_or_none read
  pure (record {
    version_id = id;
    model_path = version_model_path s name id;
    manifest_path = manifest_path s name id;
    checksum_path = checksum_path s name id;
    active = id == active;
    manifest = manifest;
  })

unfoldable pub version_infos :
    Encodings
    → ModelStore
    → String
    → String
    → List (String × Node)
    → Io StoreError (List VersionInfo)
version_infos e s name active [] = pure []
version_infos e s name active ((id, node) ∷ entries) =
    let rest = version_infos e s name active entries in
    if not (is_dir node)
    then rest
    else do version ← version_info e s name active id; versions ← rest; pure (version ∷ versions)

-- `sort.Slice` by a name that is unique.
module _ {A : Type 0} (name : A → String) where
  unfoldable pub insert_by : A → List A → List A
  unfolding text_ltb
  insert_by a [] = a ∷ []
  insert_by a (b ∷ bs) =
      let rest = insert_by a bs in if text_ltb (name b) (name a) then b ∷ rest else a ∷ b ∷ bs

  unfoldable pub sort_by : List A → List A
  unfolding insert_by
  sort_by [] = []
  sort_by (a ∷ xs) = insert_by a (sort_by xs)

unfoldable pub list_versions : Encodings → ModelStore → String → Io StoreError (List VersionInfo)
list_versions e s name = do
  let model_name = clean_path_part name
  read ← try (read_dir (under (model_dir s model_name) "versions"))
  entries ← entries_or_none read
  active ← try (active_version s model_name)
  versions ← version_infos e s model_name (text_or_empty active) entries
  pure (sort_by (λ (v : VersionInfo). v.version_id) versions)

abbrev begins_with_dot : String → Bool
begins_with_dot String.[] = false
begins_with_dot (String.◌∷◌ c s) = code c == 46

unfoldable pub installed_model :
    Encodings → ModelStore → String → List VersionInfo → Io StoreError InstalledModelInfo
installed_model e s name versions = do
  size ← lift io (directory_size (model_dir s name))
  active ← try (active_version s name)
  pure (record {
    model_name = name;
    active_version = text_or_empty active;
    versions = versions;
    installed_bytes = size;
  })

unfoldable pub installed_models :
    Encodings → ModelStore → List (String × Node) → Io StoreError (List InstalledModelInfo)
installed_models e s [] = pure []
installed_models e s ((name, node) ∷ entries) =
    let rest = installed_models e s entries in
    if not (is_dir node) || begins_with_dot name then rest else do
      versions ← list_versions e s name
      if is_empty versions then rest else do
        installed ← installed_model e s name versions
        more ← rest
        pure (installed ∷ more)

unfoldable pub list_installed_models :
    Encodings → ModelStore → Io StoreError (List InstalledModelInfo)
list_installed_models e s = do
  read ← try (read_dir s.root)
  entries ← entries_or_none read
  installed ← installed_models e s entries
  pure (sort_by (λ (m : InstalledModelInfo). m.model_name) installed)
