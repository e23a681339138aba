-- ===== src/Licenses.antt =====
-- internal/storage/licenses.go: the record of the licence that was accepted for each family.
pub mod Recorded
use Prim.Native.Char.{code}
use yllmd.Base.{
  ℕ, Bool, true, false, not, ◌&&◌, ◌||◌, String, ◌<>◌, Option, none, some, List, [], ◌∷◌, ◌++◌,
  Result, ok, err, ◌==◌, ◌!=◌, nat_eq, string_eq, if◌then◌else◌,
}
use yllmd.Base.FilePath.{join}
use yllmd.Base.Text.{trim_space}
use yllmd.Config.{Config}
use yllmd.Disk.Paths.{NodePath}
use yllmd.Disk.Actions.{Node, IoError, Io, pure, raise, refuse, ◌>>=◌, ◌>>◌, lift, try, ignore}
use yllmd.Disk.{create_temp, mkdir_all, read_dir, remove, rename}
use yllmd.Store.{StoreError, names_required, io, Codec}
use yllmd.Store.Layout.{clean_path_part, components}
use yllmd.Store.Files.{is_not_exist, read_json, write_json}
use yllmd.Store.Activating.{is_dir}
use yllmd.Store.Deleting.{is_missing}
use yllmd.Store.Listing.{entries_or_none, sort_by}

pub record LicenseAcceptance : Type 0 where
  pub family_id : String
  pub license_name : String
  pub terms_url : String
  pub catalog_version : String
  pub accepted_at : ℕ

pub record LicenseStore : Type 0 where
  pub license_root : NodePath

unfoldable pub new_license_store : Config → LicenseStore
new_license_store cfg =
    let root =
      if cfg.paths.state_dir == ""
      then join (cfg.paths.model_dir ∷ ".licenses" ∷ [])
      else join (cfg.paths.state_dir ∷ "licenses" ∷ []) in
    record { license_root = components root }

abbrev pub license_path : LicenseStore → String → NodePath
license_path s family_id = s.license_root ++ ((clean_path_part family_id <> ".json") ∷ [])

-- `defer os.Remove(tmpPath)`
unfoldable pub removing : {A : Type 0} → NodePath → Io StoreError A → Io StoreError A
removing tmp m d = let (r, d') = m d in (r, (ignore {F = StoreError} (remove tmp) d').1)

unfoldable pub accept :
    Codec LicenseAcceptance
    → LicenseStore
    → ℕ
    → String
    → String
    → String
    → String
    → Io StoreError LicenseAcceptance
accept c s now family_id license_name terms_url catalog_version = do
  let family = clean_path_part family_id
  refuse ((family == "unnamed") || (trim_space license_name == "") || (trim_space terms_url == ""))
      names_required
  let acceptance : LicenseAcceptance = record {
    family_id = family;
    license_name = license_name;
    terms_url = terms_url;
    catalog_version = catalog_version;
    accepted_at = now;
  }
  lift io (mkdir_all s.license_root)
  tmp ← lift io (create_temp s.license_root ".acceptance-" ".tmp")
  removing tmp
      (lift io (write_json c tmp acceptance) >> lift io (rename tmp (license_path s family)))
  pure acceptance

unfoldable pub read_acceptance :
    Codec LicenseAcceptance → LicenseStore → String → Io StoreError LicenseAcceptance
read_acceptance c s family_id = read_json c (license_path s family_id)

abbrev pub is_current : LicenseAcceptance → String → String → Bool
is_current a license_name terms_url = (a.license_name == license_name) && (a.terms_url == terms_url)

abbrev pub accepted_as :
    String
    → String
    → Result StoreError LicenseAcceptance
    → Io StoreError (Bool × Option LicenseAcceptance)
accepted_as license_name terms_url (ok a) = pure (is_current a license_name terms_url, some a)
accepted_as license_name terms_url (err e) = if is_missing e then pure (false, none) else raise e

unfoldable pub accepted :
    Codec LicenseAcceptance
    → LicenseStore
    → String
    → String
    → String
    → Io StoreError (Bool × Option LicenseAcceptance)
accepted c s family_id license_name terms_url = do
  found ← try (read_acceptance c s family_id)
  accepted_as license_name terms_url found

-- `filepath.Ext(name) == ".json"`
unfoldable pub is_json_name : String → Bool
is_json_name String.[] = false
is_json_name (String.◌∷◌ c s) =
    let rest = is_json_name s in if String.◌∷◌ c s == ".json" then true else rest

unfoldable pub acceptances :
    Codec LicenseAcceptance
    → LicenseStore
    → List (String × Node)
    → Io StoreError (List LicenseAcceptance)
acceptances c s [] = pure []
acceptances c s ((name, node) ∷ entries) =
    let rest = acceptances c s entries in
    if is_dir node || not (is_json_name name) then rest else do
      acceptance ← read_json c (s.license_root ++ (name ∷ []))
      more ← rest
      pure (acceptance ∷ more)

unfoldable pub list_acceptances :
    Codec LicenseAcceptance → LicenseStore → Io StoreError (List LicenseAcceptance)
list_acceptances c s = do
  read ← try (read_dir s.license_root)
  entries ← entries_or_none read
  found ← acceptances c s entries
  pure (sort_by (λ (a : LicenseAcceptance). a.family_id) found)
