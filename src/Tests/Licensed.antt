-- ===== src/Tests/Licensed.antt =====
-- An acceptance that is found again, and an update of an artifact that needs one.
use yllmd.Base.{
  Bool, true, false, Option, none, some, List, [], ◌∷◌, ◌++◌, ◌≡◌, refl, ◌==◌, string_eq,
}
use yllmd.Base.FilePath.{
  segments, keep_segments, keep_segment, up, onto_first, is_rooted, last_nonempty, nonempty, clean,
  base, join,
}
use yllmd.Base.Text.{trim_space, to_lower, text_ltb}
use yllmd.Catalog.{Variant, Family, Artifact, find_variant, variant}
use yllmd.Wire.Text.{utf8_bytes}
use yllmd.Disk.Paths.{NodePath, strip, relabel, child_of}
use yllmd.Disk.Actions.{
  Node, folder, file, Disk, pure, raise, refuse, ◌>>=◌, try, ignore, lift, draw, faulty,
}
use yllmd.Disk.{
  find, put, drop_under, relabel_all, move, children, stat, read_link, read_file, read_dir,
  write_file, remove, rename, make_folders, mkdir_all, free_name, make_temp, create_temp,
}
use yllmd.Disk.Returned.{Returns}
use yllmd.Store.{Codec}
use yllmd.Store.Layout.{
  trim_slashes_left, trim_slashes_right, clean_path_part, components, new_model_store, model_dir,
}
use yllmd.Store.Files.{write_json, read_json, read_manifest}
use yllmd.Store.Activating.{version_of, active_version}
use yllmd.Store.Listing.{version_info, version_infos, insert_by, sort_by, list_versions}
use yllmd.Licenses.{
  LicenseAcceptance, LicenseStore, new_license_store, removing, accept, read_acceptance, accepted,
}
use yllmd.Licenses.Recorded.{IsRecorded, accept_then_accepted}
use yllmd.Protocol.{Request}
use yllmd.Protocol.Models.{is_blank, validate_catalog_model_action, validate_model_update}
use yllmd.Daemon.Models.{ModelsAnswer, up_to_date}
use yllmd.Daemon.Models.Artifacts.{
  ArtifactServer, require_license, check_activation, check_update, present_artifact,
  install_catalog_artifact,
}
use yllmd.Daemon.Models.Gates.{installs_qualified_artifact, installs_licensed_artifact}
use yllmd.Tests.Stored.{two_versions, version_at, disk_of}
use yllmd.Tests.Handled.{server, models_request, artifact, outside}

abbrev acceptance : LicenseAcceptance
acceptance = record {
  family_id = "fam";
  license_name = "L";
  terms_url = "https://l";
  catalog_version = "1";
  accepted_at = 7;
}

-- The text of a record is one byte.
abbrev codec : Codec LicenseAcceptance
codec = record { encode = λ a. 3 ∷ []; decode = λ bytes. some acceptance }

abbrev licenses : LicenseStore
licenses = record { license_root = "s" ∷ "licenses" ∷ [] }

abbrev no_licenses : Disk
no_licenses = record (disk_of (("s" ∷ [], folder) ∷ [])) { suffixes = "9" ∷ [] }

abbrev license_files : List (NodePath × Node)
license_files =
    ("s" ∷ [], folder)
    ∷ ("s" ∷ "licenses" ∷ [], folder)
    ∷ ("s" ∷ "licenses" ∷ "fam.json" ∷ [], file (3 ∷ 10 ∷ []))
    ∷ []

abbrev family : Family
family = record {
  id = "fam";
  name = "Family";
  publisher = "P";
  countries = [];
  description = "";
  license = record {
    name = "L";
    spdx_id = "";
    category = "c";
    commercial_use = true;
    acceptance_required = true;
    terms_url = "https://l";
  };
  variants = [];
}

abbrev small_variant : Variant
small_variant = record {
  id = "small";
  name = "Small";
  model_type = "chat";
  level = "1";
  parameter_count = "1B";
  capabilities = [];
  status = "available";
  recommended_ram = 1;
  expected_storage = 1;
  artifact = some (record artifact { revision = "v1" });
}

abbrev whole_family : Family
whole_family = record family { variants = small_variant ∷ [] }

abbrev artifacts : ArtifactServer
artifacts = record {
  base = server;
  catalog = record { schema_version = 1; catalog_version = "1"; families = whole_family ∷ [] };
  acceptances = codec;
  outside = outside;
  allow_http = false;
}

abbrev licensed_disk : Disk
licensed_disk = disk_of (license_files ++ two_versions.files)

abbrev update_answer : ModelsAnswer
update_answer = record {
  event = up_to_date "small" "v1" (version_at "v1" ++ ("model.gguf" ∷ []));
  reloads = false;
}

abbrev update_request : Request
update_request = record (models_request "update" "small" "") {
  activate = none;
  license_accepted = false;
}

runs :
    Returns
      (accept codec licenses 7 "fam" "L" "https://l" "1")
      no_licenses
      acceptance
      (disk_of license_files)
    × Returns
        (accepted codec licenses "fam" "L" "https://l")
        (disk_of license_files)
        (true, some acceptance)
        (disk_of license_files)
    × Returns
        (install_catalog_artifact artifacts true update_request)
        licensed_disk
        update_answer
        licensed_disk
unfolding accept accepted read_acceptance removing install_catalog_artifact require_license
    check_activation check_update present_artifact validate_catalog_model_action
    validate_model_update variant find_variant new_license_store list_versions version_infos
    version_info sort_by insert_by read_manifest clean base join segments keep_segments keep_segment
    up onto_first is_rooted last_nonempty nonempty trim_space to_lower utf8_bytes strip relabel
    child_of pure raise refuse ◌>>=◌ try ignore lift draw faulty find put drop_under relabel_all
    move children stat read_link read_file read_dir write_file remove rename make_folders mkdir_all
    free_name make_temp trim_slashes_left trim_slashes_right clean_path_part components model_dir
    write_json read_json version_of active_version new_model_store create_temp is_blank text_ltb
runs = (refl, refl, refl)

accept_then_accepted_example :
    ◌≡◌ {A = Bool × Option LicenseAcceptance} (true, some acceptance) (true, some acceptance)
accept_then_accepted_example =
    accept_then_accepted codec licenses 7 "fam" "L" "https://l" "1" no_licenses
      (disk_of license_files) refl runs.0 runs.1

found : variant artifacts.catalog "small" ≡ some (whole_family, small_variant)
unfolding variant find_variant
found = refl

installs_qualified_artifact_example :
    ((small_variant.status == "available") ≡ true)
    × ((a : Artifact) × (small_variant.artifact ≡ some a))
installs_qualified_artifact_example =
    installs_qualified_artifact artifacts true update_request licensed_disk whole_family
      small_variant found runs.2

installs_licensed_artifact_example :
    IsRecorded codec (new_license_store server.cfg) "fam" "L" "https://l" licensed_disk
installs_licensed_artifact_example =
    installs_licensed_artifact artifacts true update_request licensed_disk whole_family
      small_variant found refl refl runs.2
