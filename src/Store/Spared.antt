-- ===== src/Store/Spared.antt =====
-- internal/storage/models.go: the steps that every operation of the store is made of, and what they leave
-- alone.
use yllmd.Base.{
  false, String, Option, none, some, [], ◌∷◌, ◌++◌, Result, ok, err, ◌≡◌, refl, ap, string_eq,
}
use yllmd.Disk.Paths.{NodePath, is_under, parent}
use yllmd.Disk.Actions.{Node, IoError}
use yllmd.Disk.Spares.{
  Spares, Spares-bind_returned, Spares-bind, Spares-raise, Spares-pure, spares_rules, Spares-if,
  Spares-stat, Spares-read_link, Spares-read_file, Spares-read_dir, Spares-walk_sizes,
  Spares-symlink, Spares-remove, Spares-remove_all, Spares-rename, Spares-write_file,
  Spares-create_file, Spares-mkdir_all, Spares-mkdir_temp,
}
use yllmd.Store.{ModelStore, StoreError, Codec, Encodings}
use yllmd.Store.Files.{verify_sha256, read_json, directory_size, decoded}
use yllmd.Store.Activating.{
  require_dir, active_version, link_or_empty, or_remove, replace_link, rollback_target,
}
use yllmd.Store.Deleting.{refuse_active, refuse_rollback, must_be_inactive}
use yllmd.Store.Installing.{must_be_missing}

pub ruleset disk_rules = (
  spares_rules, Spares-stat, Spares-read_link, Spares-read_file, Spares-read_dir, Spares-walk_sizes,
  Spares-symlink, Spares-remove, Spares-remove_all, Spares-rename, Spares-write_file,
  Spares-create_file, Spares-mkdir_all, Spares-mkdir_temp,
)

pub parent-append : (dir : NodePath) (c : String) → parent (dir ++ (c ∷ [])) ≡ dir
parent-append [] c = refl
parent-append (a ∷ []) c = refl
parent-append (a ∷ b ∷ dir) c = ap (◌∷◌ a) (parent-append (b ∷ dir) c)

module _ (q : NodePath) where
  pub decoded-Spares : {A : Type 0} (o : Option A) → Spares q (decoded o)
  decoded-Spares none = search spares_rules
  decoded-Spares (some a) = search spares_rules

  pub read_json-Spares : {A : Type 0} (c : Codec A) (p : NodePath) → Spares q (read_json c p)
  unfolding read_json
  read_json-Spares c p = search (disk_rules, decoded-Spares)

  pub require_dir-Spares : (p : NodePath) → Spares q (require_dir p)
  unfolding require_dir
  require_dir-Spares p = search disk_rules

  pub active_version-Spares : (s : ModelStore) (name : String) → Spares q (active_version s name)
  unfolding active_version
  active_version-Spares s name = search disk_rules

  pub rollback_target-Spares :
      (e : Encodings) (s : ModelStore) (name : String) → Spares q (rollback_target e s name)
  unfolding rollback_target
  rollback_target-Spares e s name = search (disk_rules, read_json-Spares)

  pub directory_size-Spares : (p : NodePath) → Spares q (directory_size p)
  unfolding directory_size
  directory_size-Spares p = search disk_rules

  pub link_or_empty-Spares : (r : Result IoError String) → Spares q (link_or_empty r)
  link_or_empty-Spares (ok t) = search spares_rules
  link_or_empty-Spares (err e) = search spares_rules

  pub refuse_active-Spares :
      (id : String) (r : Result IoError String) → Spares q (refuse_active id r)
  refuse_active-Spares id (ok t) = search spares_rules
  refuse_active-Spares id (err e) = search spares_rules

  pub refuse_rollback-Spares :
      (id : String) (r : Result StoreError String) → Spares q (refuse_rollback id r)
  refuse_rollback-Spares id (ok t) = search spares_rules
  refuse_rollback-Spares id (err e) = search spares_rules

  pub must_be_inactive-Spares : (r : Result IoError String) → Spares q (must_be_inactive r)
  must_be_inactive-Spares (ok t) = search spares_rules
  must_be_inactive-Spares (err e) = search spares_rules

  pub must_be_missing-Spares : (r : Result IoError Node) → Spares q (must_be_missing r)
  must_be_missing-Spares (ok t) = search spares_rules
  must_be_missing-Spares (err e) = search spares_rules

  pub verify_sha256-Spares :
      (e : Encodings) (p : NodePath) (sum : String) → Spares q (verify_sha256 e p sum)
  unfolding verify_sha256
  verify_sha256-Spares e p sum = search disk_rules

  pub or_remove-Spares :
      (tmp : NodePath) (r : Result IoError (Unit {0}))
      → is_under tmp q ≡ false
      → Spares q (or_remove tmp r)
  or_remove-Spares tmp (ok _) h = search spares_rules
  or_remove-Spares tmp (err e) h = search disk_rules

  pub replace_link-Spares :
      (tmp current : NodePath)
      → is_under tmp q ≡ false
      → is_under current q ≡ false
      → Spares q (replace_link tmp current)
  unfolding replace_link
  replace_link-Spares tmp current h h' = search (disk_rules, or_remove-Spares)

pub ruleset reading_rules = (
  disk_rules, read_json-Spares, require_dir-Spares, active_version-Spares, rollback_target-Spares,
  directory_size-Spares, link_or_empty-Spares, refuse_active-Spares, refuse_rollback-Spares,
  must_be_inactive-Spares, must_be_missing-Spares, verify_sha256-Spares, replace_link-Spares,
)
