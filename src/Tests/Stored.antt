-- ===== src/Tests/Stored.antt =====
-- Runs of the model store on small disks.
use yllmd.Base.{true, false, String, ◌<>◌, some, List, [], ◌∷◌, ◌++◌, ◌≡◌, refl, ◌==◌, string_eq}
use yllmd.Base.FilePath.{
  segments, keep_segments, keep_segment, up, onto_first, is_rooted, last_nonempty, nonempty, clean,
  base, join,
}
use yllmd.Base.Text.{trim_space, to_lower}
use yllmd.Wire.Text.{utf8_bytes}
use yllmd.Disk.Paths.{NodePath, strip, relabel, child_of}
use yllmd.Disk.Actions.{
  Node, folder, file, link, Disk, pure, raise, refuse, ◌>>=◌, try, ignore, lift, draw, faulty,
}
use yllmd.Disk.{
  find, put, drop_under, drop_some, relabel_all, move, children, stat, read_link, read_file,
  read_dir, write_file, create_file, symlink, remove, remove_all, rename, make_folders, mkdir_all,
  free_name, make_temp, mkdir_temp, sizes_under, walk_sizes,
}
use yllmd.Disk.Returned.{Returns}
use yllmd.Disk.Spares.{Spares}
use yllmd.Store.{
  ModelStore, Activation, InstallRequest, InstallResult, Manifest, DeleteResult, Encodings,
}
use yllmd.Store.Layout.{
  trim_slashes_left, trim_slashes_right, clean_path_part, components, model_dir, current_dir,
  version_dir, rollback_path, ensure_layout,
}
use yllmd.Store.Files.{
  is_hex, normal_checksum, verify_sha256, copy_file, write_json, read_json, write_manifest,
  write_checksum, sum_wrapped, directory_size,
}
use yllmd.Store.Activating.{
  require_dir, version_of, active_version, replace_link, activate_version, rollback_activation,
  version_or_empty, rollback_latest, rollback_target,
}
use yllmd.Store.Installing.{cleaning, fill, check_request, place_version, install_local_file}
use yllmd.Store.Deleting.{delete_version, delete_model}
use yllmd.Store.Names.{IsName, clean_path_part-IsName}
use yllmd.Store.Isolation.{models_isolated}
use yllmd.Store.Targets.{target_text}
use yllmd.Store.Kept.{
  delete_version_keeps_active, delete_version_keeps_rollback, delete_model_keeps_active,
}
use yllmd.Store.Verified.{HasChecksum, install_verified}
use yllmd.Store.Activated.{link_to, activate_version_links}
use yllmd.Store.RolledBack.{activate_then_rollback}

abbrev pub checksum : String
checksum = "aaaaaaaaaaaaaaaaaaaaaaaaaaaaaaaaaaaaaaaaaaaaaaaaaaaaaaaaaaaaaaaa"

abbrev first_activation : Activation
first_activation = record {
  model_name = "small";
  version_id = "v2";
  previous_target = "versions/v1";
}

abbrev some_manifest : Manifest
some_manifest = record {
  model_name = "small";
  version_id = "v1";
  catalog_id = "";
  sha256 = checksum;
  installed_at = 7;
}

-- Records whose text is one byte, and a hash that is the same for every file.
abbrev pub encodings : Encodings
encodings = record {
  activations = record { encode = λ a. 1 ∷ []; decode = λ bytes. some first_activation };
  manifests = record { encode = λ m. 2 ∷ []; decode = λ bytes. some some_manifest };
  sha256_hex = λ bytes. checksum;
}

abbrev pub store : ModelStore
store = record { root = "m" ∷ [] }

abbrev empty_disk : Disk
empty_disk = record {
  files = ("m" ∷ [], folder) ∷ ("src" ∷ [], file (5 ∷ 6 ∷ [])) ∷ [];
  faults = [];
  suffixes = "1" ∷ [];
}

abbrev request : InstallRequest
request = record {
  model_name = "small";
  version_id = "v1";
  source_path = "/src";
  sha256 = checksum;
  catalog_id = "";
  activate = true;
}

abbrev pub version_at : String → NodePath
version_at id = "m" ∷ "small" ∷ "versions" ∷ id ∷ []

clean_path_part-IsName_example : IsName (clean_path_part "../a//b/")
clean_path_part-IsName_example = clean_path_part-IsName "../a//b/"

models_isolated_example : Spares ("m" ∷ "other" ∷ "current" ∷ []) (delete_model store "small")
unfolding model_dir clean_path_part
models_isolated_example =
    (models_isolated encodings store 7 request "v1" "other" ("current" ∷ []) refl refl refl).4

abbrev installed_disk : Disk
installed_disk = record {
  files =
      ("m" ∷ [], folder)
      ∷ ("src" ∷ [], file (5 ∷ 6 ∷ []))
      ∷ ("m" ∷ "small" ∷ [], folder)
      ∷ ("m" ∷ "small" ∷ "versions" ∷ [], folder)
      ∷ (version_at "v1", folder)
      ∷ (version_at "v1" ++ ("model.gguf" ∷ []), file (5 ∷ 6 ∷ []))
      ∷ (version_at "v1" ++ ("manifest.json" ∷ []), file (2 ∷ 10 ∷ []))
      ∷ (
        version_at "v1" ++ ("checksum.sha256" ∷ []),
        file (utf8_bytes (checksum <> "  model.gguf\n")),
      )
      ∷ ("m" ∷ "small" ∷ "current" ∷ [], link "versions/v1")
      ∷ ("m" ∷ "small" ∷ "rollback.json" ∷ [], file (1 ∷ 10 ∷ []))
      ∷ [];
  faults = [];
  suffixes = [];
}

abbrev install_result : InstallResult
install_result = record {
  model_name = "small";
  version_id = "v1";
  model_path = version_at "v1" ++ ("model.gguf" ∷ []);
  manifest_path = version_at "v1" ++ ("manifest.json" ∷ []);
  checksum_path = version_at "v1" ++ ("checksum.sha256" ∷ []);
  activation = some (record { model_name = "small"; version_id = "v1"; previous_target = "" });
}

abbrev pub base_files : List (NodePath × Node)
base_files =
    ("m" ∷ [], folder)
    ∷ ("m" ∷ "small" ∷ [], folder)
    ∷ ("m" ∷ "small" ∷ "versions" ∷ [], folder)
    ∷ (version_at "v1", folder)
    ∷ (version_at "v1" ++ ("model.gguf" ∷ []), file (5 ∷ []))
    ∷ []

-- Another model, with an active version.
abbrev other_files : List (NodePath × Node)
other_files =
    ("m" ∷ "other" ∷ [], folder) ∷ ("m" ∷ "other" ∷ "current" ∷ [], link "versions/v1") ∷ []

abbrev pub second_files : List (NodePath × Node)
second_files =
    (version_at "v2", folder) ∷ (version_at "v2" ++ ("model.gguf" ∷ []), file (6 ∷ [])) ∷ []

abbrev current_link : String → NodePath × Node
current_link target = ("m" ∷ "small" ∷ "current" ∷ [], link target)

abbrev record_file : NodePath × Node
record_file = ("m" ∷ "small" ∷ "rollback.json" ∷ [], file (1 ∷ 10 ∷ []))

abbrev pub disk_of : List (NodePath × Node) → Disk
disk_of files = record { files = files; faults = []; suffixes = [] }

-- Two versions, of which the first is active.
abbrev pub two_versions : Disk
two_versions = disk_of (base_files ++ (second_files ++ (current_link "versions/v1" ∷ [])))

-- The second is active, and the record leads back to the first.
abbrev second_active : Disk
second_active =
    disk_of (base_files ++ (second_files ++ (current_link "versions/v2" ∷ record_file ∷ [])))

abbrev first_remembered : Disk
first_remembered =
    disk_of (base_files ++ (second_files ++ (current_link "versions/v1" ∷ record_file ∷ [])))

abbrev pub deleted_second : DeleteResult
deleted_second = record { model_name = "small"; version_id = "v2"; reclaimed_bytes = 1 }

abbrev after_delete : Disk
after_delete = disk_of (base_files ++ (current_link "versions/v1" ∷ record_file ∷ []))

-- An install, an activation and its rollback, and two deletions, as they run.
runs :
    Returns (install_local_file encodings store 7 request) empty_disk install_result installed_disk
    × Returns
        (activate_version encodings store "small" "v2")
        two_versions
        first_activation
        second_active
    × Returns
        (rollback_latest encodings store "small")
        second_active
        (record { model_name = "small"; version_id = "v1" })
        two_versions
    × Returns
        (delete_version encodings store "small" "v2")
        first_remembered
        deleted_second
        after_delete
    × Returns
        (delete_model store "small")
        (disk_of (base_files ++ other_files))
        (record { model_name = "small"; version_id = ""; reclaimed_bytes = 1 })
        (disk_of (("m" ∷ [], folder) ∷ other_files))
unfolding install_local_file clean base join segments keep_segments keep_segment up onto_first
    is_rooted last_nonempty nonempty trim_space to_lower utf8_bytes strip relabel child_of pure
    raise refuse ◌>>=◌ try ignore lift draw faulty find put drop_under drop_some relabel_all move
    children stat read_link read_file read_dir write_file create_file symlink remove remove_all
    rename make_folders mkdir_all free_name make_temp mkdir_temp sizes_under walk_sizes
    trim_slashes_left trim_slashes_right clean_path_part components model_dir ensure_layout is_hex
    normal_checksum verify_sha256 copy_file write_json read_json write_manifest write_checksum
    sum_wrapped directory_size require_dir version_of active_version replace_link activate_version
    rollback_activation version_or_empty rollback_latest rollback_target cleaning fill check_request
    place_version delete_version delete_model
runs = (refl, refl, refl, refl, refl)

install_verified_example :
    HasChecksum encodings checksum (version_at "v1" ++ ("model.gguf" ∷ [])) installed_disk
unfolding clean_path_part
install_verified_example = install_verified encodings store 7 request refl empty_disk runs.0

proper : (clean_path_part "v2" == "..") ≡ false
unfolding clean_path_part clean base segments onto_first is_rooted keep_segments keep_segment up
    last_nonempty trim_slashes_left trim_slashes_right
proper = refl

-- The link and the record, where they are looked for.
there :
    (find (current_dir store "small") two_versions.files ≡ some (link "versions/v1"))
    × (find (current_dir store "small") first_remembered.files ≡ some (link "versions/v1"))
    × (find (rollback_path store "small") first_remembered.files ≡ some (file (1 ∷ 10 ∷ [])))
unfolding find model_dir clean_path_part clean base segments onto_first is_rooted keep_segments
    keep_segment up last_nonempty trim_slashes_left trim_slashes_right
there = (refl, refl, refl)

activate_version_links_example :
    (target : String) × (find (current_dir store "small") second_active.files ≡ some (link target))
    × (version_of target ≡ clean_path_part "v2")
    × (find (rollback_path store "small") second_active.files ≡ some (file (1 ∷ 10 ∷ [])))
activate_version_links_example =
    activate_version_links encodings store "small" "v2" two_versions proper runs.1

activate_then_rollback_example :
    find (current_dir store "small") two_versions.files ≡ link_to "versions/v1"
activate_then_rollback_example =
    activate_then_rollback encodings store "small" "v2" "versions/v1" two_versions second_active
      proper refl there.0 runs.1 runs.2

proper_first : (clean_path_part "v1" == "..") ≡ false
unfolding clean_path_part clean base segments onto_first is_rooted keep_segments keep_segment up
    last_nonempty trim_slashes_left trim_slashes_right
proper_first = refl

-- The link and the record lead to the first version.
leads :
    (find (current_dir store "small") first_remembered.files
      ≡ some (link (target_text (clean_path_part "v1"))))
    × ("versions/v1" ≡ target_text (clean_path_part "v1"))
unfolding clean_path_part clean base segments onto_first is_rooted keep_segments keep_segment up
    last_nonempty trim_slashes_left trim_slashes_right
leads = (there.1, refl)

delete_version_keeps_active_example :
    (find (current_dir store "small") after_delete.files
      ≡ some (link (target_text (clean_path_part "v1"))))
    × ((q : NodePath)
        → find (version_dir store "small" "v1" ++ q) after_delete.files
          ≡ find (version_dir store "small" "v1" ++ q) first_remembered.files)
delete_version_keeps_active_example =
    delete_version_keeps_active encodings store "small" "v2" "v1" first_remembered proper
      proper_first leads.0 runs.3

delete_version_keeps_rollback_example :
    (find (rollback_path store "small") after_delete.files ≡ some (file (1 ∷ 10 ∷ [])))
    × ((q : NodePath)
        → find (version_dir store "small" "v1" ++ q) after_delete.files
          ≡ find (version_dir store "small" "v1" ++ q) first_remembered.files)
delete_version_keeps_rollback_example =
    delete_version_keeps_rollback encodings store "small" "v2" "v1" first_remembered proper
      proper_first there.2 refl leads.1 runs.3

other_linked :
    ((clean_path_part "small" == "..") ≡ false)
    × ((clean_path_part "other" == "..") ≡ false)
    × (find (current_dir store "other") (disk_of (base_files ++ other_files)).files
        ≡ some (link "versions/v1"))
unfolding find model_dir clean_path_part clean base segments onto_first is_rooted keep_segments
    keep_segment up last_nonempty trim_slashes_left trim_slashes_right
other_linked = (refl, refl, refl)

delete_model_keeps_active_example :
    find
      (model_dir store "other" ++ ("current" ∷ []))
      (disk_of (("m" ∷ [], folder) ∷ other_files)).files
    ≡ find (model_dir store "other" ++ ("current" ∷ [])) (disk_of (base_files ++ other_files)).files
delete_model_keeps_active_example =
    delete_model_keeps_active encodings store "small" "other" (disk_of (base_files ++ other_files))
      other_linked.0 other_linked.1 other_linked.2 runs.4 ("current" ∷ [])
