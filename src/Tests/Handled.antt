-- ===== src/Tests/Handled.antt =====
-- The daemon's actions on models, and a download, on small disks.
use yllmd.Base.{ltb, ◌-◌, ◌^◌, true, false, String, some, [], ◌∷◌, ◌++◌, ◌≡◌, refl, ◌==◌, string_eq}
use yllmd.Base.FilePath.{
  segments, keep_segments, keep_segment, up, onto_first, is_rooted, last_nonempty, nonempty, clean,
  base, join,
}
use yllmd.Base.Text.{trim_space, to_lower}
use yllmd.Wire.Text.{utf8_bytes}
use yllmd.Catalog.{Artifact}
use yllmd.Disk.Paths.{NodePath, strip, relabel, child_of}
use yllmd.Disk.Actions.{
  folder, file, link, Disk, pure, raise, refuse, ◌>>=◌, try, ignore, lift, draw, faulty,
}
use yllmd.Disk.{
  find, put, drop_under, drop_some, relabel_all, move, children, stat, read_link, read_file,
  read_dir, write_file, create_file, symlink, remove, remove_all, rename, make_folders, mkdir_all,
  free_name, make_temp, mkdir_temp, sizes_under, walk_sizes,
}
use yllmd.Disk.Returned.{Returns}
use yllmd.Protocol.{Request}
use yllmd.Protocol.Models.{is_blank, validate_model_delete}
use yllmd.Daemon.Queue.{new_server}
use yllmd.Daemon.Models.{
  ModelsServer, ModelsAnswer, deleted, delete_code, download_dir, delete_one_version,
  delete_whole_model, delete_model_request,
}
use yllmd.Daemon.Models.Guards.{delete_keeps_active_version}
use yllmd.Store.Layout.{
  trim_slashes_left, trim_slashes_right, clean_path_part, components, new_model_store, model_dir,
  current_dir, version_dir,
}
use yllmd.Store.Targets.{target_text}
use yllmd.Store.Files.{
  is_hex, normal_checksum, verify_sha256, copy_file, write_json, read_json, write_manifest,
  write_checksum, sum_wrapped, directory_size,
}
use yllmd.Store.Activating.{
  require_dir, version_of, active_version, replace_link, activate_version, rollback_activation,
  version_or_empty, rollback_latest, rollback_target,
}
use yllmd.Store.Deleting.{delete_version, delete_model}
use yllmd.Download.Request.{Outside, validate_download}
use yllmd.Download.{
  with_suffix, final_path, verify_file, partial_size, existing_download, complete_download,
  kept_bytes, fetch, resume, download,
}
use yllmd.Download.Sized.{HasSize, download_sized}
use yllmd.Download.Checked.{Matches, download_verified}
use yllmd.Tests.Data.{request_of}
use yllmd.Tests.Routes.{registry, config}
use yllmd.Tests.Stored.{checksum, encodings, two_versions, base_files, disk_of}

abbrev pub server : ModelsServer
server = record {
  cfg = config "";
  models = registry;
  jobs = new_server 2;
  encodings = encodings;
  now = 7;
}

abbrev busy_server : ModelsServer
busy_server = record server { jobs = record (new_server 2) { queued = ("a", 0) ∷ [] } }

abbrev pub models_request : String → String → String → Request
models_request action model version = record (request_of "a") {
  kind = "models";
  action = action;
  model = model;
  version = version;
}

abbrev delete_answer : ModelsAnswer
delete_answer = record { event = deleted "small" "v2" 1; reloads = false }

abbrev after_delete : Disk
after_delete = disk_of (base_files ++ (("m" ∷ "small" ∷ "current" ∷ [], link "versions/v1") ∷ []))

delete_run :
    Returns
      (delete_model_request server (models_request "delete" "small" "v2"))
      two_versions
      delete_answer
      after_delete
    × (find (current_dir (new_model_store (config "")) "small") two_versions.files
        ≡ some (link "versions/v1"))
unfolding delete_model_request clean base join segments keep_segments keep_segment up onto_first
    is_rooted last_nonempty nonempty trim_space to_lower utf8_bytes strip relabel child_of pure
    raise refuse ◌>>=◌ try ignore lift draw faulty find put drop_under drop_some relabel_all move
    children stat read_link read_file read_dir write_file create_file symlink remove remove_all
    rename make_folders mkdir_all free_name make_temp mkdir_temp sizes_under walk_sizes
    trim_slashes_left trim_slashes_right clean_path_part components model_dir is_hex normal_checksum
    verify_sha256 copy_file write_json read_json write_manifest write_checksum sum_wrapped
    directory_size require_dir version_of active_version replace_link activate_version
    rollback_activation version_or_empty rollback_latest rollback_target delete_version delete_model
    is_blank validate_model_delete delete_code download_dir delete_one_version delete_whole_model
    new_model_store
delete_run = (refl, refl)

deleted_dirs : ((clean_path_part "v2" == "..") ≡ false) × ((clean_path_part "v1" == "..") ≡ false)
unfolding clean_path_part clean base segments onto_first is_rooted keep_segments keep_segment up
    last_nonempty trim_slashes_left trim_slashes_right
deleted_dirs = (refl, refl)

-- The link leads to the first version.
linked :
    find (current_dir (new_model_store (config "")) "small") two_versions.files
    ≡ some (link (target_text (clean_path_part "v1")))
unfolding clean_path_part clean base segments onto_first is_rooted keep_segments keep_segment up
    last_nonempty trim_slashes_left trim_slashes_right
linked = delete_run.1

delete_keeps_active_version_example :
    ((models_request "delete" "small" "v2").version == "") ≡ false
    × (find (current_dir (new_model_store (config "")) "small") after_delete.files
        ≡ some (link (target_text (clean_path_part "v1"))))
    × ((q : NodePath)
        → find (version_dir (new_model_store (config "")) "small" "v1" ++ q) after_delete.files
          ≡ find (version_dir (new_model_store (config "")) "small" "v1" ++ q) two_versions.files)
delete_keeps_active_version_example =
    delete_keeps_active_version server (models_request "delete" "small" "v2") "v1" two_versions
      deleted_dirs.0 deleted_dirs.1 linked delete_run.0

abbrev pub artifact : Artifact
artifact = record {
  format = "gguf";
  quantization = "";
  repository = "";
  revision = "r";
  url = "https://h/a";
  filename = "a.gguf";
  size_bytes = 3;
  sha256 = checksum;
  minimum_runner = "";
  prompt_template = "";
}

-- A server that has the rest of the file, after the byte that is there already.
abbrev pub outside : Outside
outside = record {
  parse_url = λ url. some (record { scheme = "https"; host = "h" });
  get = λ url offset. some (record { status = 206; body = 8 ∷ 9 ∷ []; complete = true });
  sha256_hex = λ bytes. checksum;
  folder_size = 4096;
}

abbrev partly_downloaded : Disk
partly_downloaded = disk_of (("d" ∷ [], folder) ∷ ("d" ∷ "a.gguf.part" ∷ [], file (7 ∷ [])) ∷ [])

abbrev downloaded : Disk
downloaded = disk_of (("d" ∷ [], folder) ∷ ("d" ∷ "a.gguf" ∷ [], file (7 ∷ 8 ∷ 9 ∷ [])) ∷ [])

download_run :
    Returns
      (download outside false artifact "/d")
      partly_downloaded
      ("d" ∷ "a.gguf" ∷ [])
      downloaded
unfolding download validate_download with_suffix verify_file partial_size existing_download
    complete_download kept_bytes fetch resume clean base join segments keep_segments keep_segment up
    onto_first is_rooted last_nonempty nonempty trim_space to_lower utf8_bytes strip relabel pure
    raise refuse ◌>>=◌ try lift draw faulty find put drop_under relabel_all move children stat
    read_file write_file remove rename make_folders mkdir_all components is_hex
download_run = refl

download_verified_example :
    (("d" ∷ "a.gguf" ∷ []) ≡ final_path "/d" artifact)
    × Matches outside artifact ("d" ∷ "a.gguf" ∷ []) downloaded
download_verified_example =
    download_verified outside artifact false "/d" partly_downloaded refl refl download_run

download_sized_example :
    HasSize artifact ("d" ∷ "a.gguf" ∷ []) downloaded
    × (ltb 0 artifact.size_bytes ≡ true)
    × (ltb (2 ^ 63 - 2) artifact.size_bytes ≡ false)
download_sized_example =
    download_sized outside artifact false "/d" partly_downloaded refl refl download_run
