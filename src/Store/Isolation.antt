-- ===== src/Store/Isolation.antt =====
-- internal/storage/models.go: what an operation on one model leaves alone.
use yllmd.Base.{
  ℕ, Bool, true, false, String, ◌<>◌, [], ◌∷◌, ◌++◌, Result, ok, err, ◌≡◌, ap, ◌∙◌, arith, ◌==◌,
  ◌!=◌, string_eq,
}
use yllmd.Disk.Paths.{NodePath, is_under, outside-append, outside-prefix, siblings-outside}
use mathlib.Core.List.{append_assoc}
use yllmd.Disk.Actions.{Io, ◌>>=◌, ◌>>◌, lift, ignore, pure}
use yllmd.Disk.{rename, remove, mkdir_temp}
use text.Mathlib.TextEquality.{eq_iff}
use yllmd.Disk.Spares.{
  Spares, Spares-refuse_bind, Spares-mkdir_temp_bind, Spares-bind, Spares-pure, Spares-lift,
  Spares-ignore, Spares-try, spares_rules, Spares-stat, Spares-remove, Spares-mkdir_all,
}
use yllmd.Store.{
  ModelStore, Activation, RollbackResult, InstallRequest, Manifest, StoreError, Encodings,
}
use yllmd.Store.Layout.{clean_path_part, model_dir, version_dir, rollback_path, ensure_layout}
use yllmd.Store.Spared.{
  disk_rules, reading_rules, parent-append, read_json-Spares, must_be_missing-Spares,
}
use yllmd.Store.Places.{model_dir_idem, model_dir-of_name}
use yllmd.Store.Files.{copy_file, write_json, write_manifest, write_checksum}
use yllmd.Store.Activating.{activate_version, rollback_activation, rollback_latest}
use yllmd.Store.Deleting.{delete_version, delete_model}
use yllmd.Store.Installing.{
  or_remove_all, cleaning, fill, check_request, request_manifest, place_version, activate_if,
  install_local_file,
}

-- A path apart from a folder: neither in it nor above it.
module _ (s : ModelStore) (name : String) (q : NodePath)
    (out : is_under (model_dir s name) q ≡ false) where
  version_dir-outside : (id : String) → is_under (version_dir s name id) q ≡ false
  version_dir-outside id =
      let inside = outside-append (model_dir s name) in
      ground (
        arith,
        inside ("versions" ∷ []) q out,
        outside-append (model_dir s name ++ ("versions" ∷ [])) (clean_path_part id ∷ []) q,
        ap (λ p. is_under p q) (parent-append (model_dir s name) "versions"),
      )

  activate_version-Spares :
      (e : Encodings) (id : String)
      → is_under q (model_dir s name) ≡ false
      → Spares q (activate_version e s name id)
  unfolding activate_version write_json
  activate_version-Spares e id above =
      let part : (r : NodePath) → is_under (model_dir s name ++ r) q ≡ false =
        λ r. outside-append (model_dir s name) r q out in
      search (reading_rules, part) depth 30

  rollback_activation-Spares :
      (a : Activation) → a.model_name ≡ name → Spares q (rollback_activation s a)
  unfolding rollback_activation
  rollback_activation-Spares a same =
      let part : (r : NodePath) → is_under (model_dir s a.model_name ++ r) q ≡ false = λ r.
        outside-append (model_dir s a.model_name) r q
          (ap (λ n. is_under (model_dir s n) q) same ∙ out) in
      search (reading_rules, part) depth 30

  cleaned : is_under (model_dir s (clean_path_part name)) q ≡ false
  cleaned = ap (λ p. is_under p q) (model_dir_idem s name) ∙ out

-- A deletion works in the folder of its version.
pub delete_version_alone-Spares :
    (s : ModelStore) (name : String) (q : NodePath) (e : Encodings) (id : String)
    → is_under (version_dir s (clean_path_part name) (clean_path_part id)) q ≡ false
    → Spares q (delete_version e s name id)
unfolding delete_version
delete_version_alone-Spares s name q e id inside = search (reading_rules, inside) depth 30

-- Everything an operation does stays in the folder of its model and in what leads there.
module _ (s : ModelStore) (name : String) (q : NodePath)
    (out : is_under (model_dir s name) q ≡ false) where
  pub delete_model-Spares : Spares q (delete_model s name)
  unfolding delete_model
  delete_model-Spares = let inside = cleaned s name q out in search (reading_rules, inside) depth 30

  pub delete_version-Spares : (e : Encodings) (id : String) → Spares q (delete_version e s name id)
  delete_version-Spares e id =
      delete_version_alone-Spares s name q e id
        (version_dir-outside s (clean_path_part name) q (cleaned s name q out) (clean_path_part id))

  restore-Spares :
      (a : Activation) (r : RollbackResult)
      → a.model_name ≡ clean_path_part name
      → Spares q (
          lift StoreError.io (rollback_activation s a)
          >> (ignore (remove (rollback_path s (clean_path_part name))) >> pure r))
  restore-Spares a r same =
      let inside = cleaned s name q out in
      let record_outside =
        outside-append (model_dir s (clean_path_part name)) ("rollback.json" ∷ []) q inside in
      let back = rollback_activation-Spares s (clean_path_part name) q inside a same in
      Spares-bind _ _ (Spares-lift _ _ back) (λ _.
        Spares-bind _ _ (Spares-ignore _ (Spares-remove _ record_outside)) (λ _. Spares-pure _))

  pub rollback_latest-Spares : (e : Encodings) → Spares q (rollback_latest e s name)
  unfolding rollback_latest
  rollback_latest-Spares e =
      let n = clean_path_part name in
      Spares-bind _ _ (read_json-Spares q e.activations (rollback_path s n)) (λ a.
        Spares-refuse_bind (a.model_name != n) _ _
          (λ matched. restore-Spares a _ (ground (arith, eq_iff a.model_name n))))

module _ (s : ModelStore) (e : Encodings) (now : ℕ) (request : InstallRequest) (q : NodePath) where
  fill-Spares :
      (dir : NodePath) (manifest : Manifest)
      → is_under dir q ≡ false
      → Spares q (fill e dir request manifest)
  unfolding fill copy_file write_manifest write_checksum write_json
  fill-Spares dir manifest out =
      let part : (r : NodePath) → is_under (dir ++ r) q ≡ false = λ r. outside-append dir r q out in
      search (reading_rules, part) depth 30

  or_remove_all-Spares :
      {A : Type 0} (tmp : NodePath) (r : Result StoreError A)
      → is_under tmp q ≡ false
      → Spares q (or_remove_all tmp r)
  or_remove_all-Spares tmp (ok a) out = search disk_rules
  or_remove_all-Spares tmp (err x) out = search disk_rules

  cleaning-Spares :
      {A : Type 0} (tmp : NodePath) (m : Io StoreError A)
      → is_under tmp q ≡ false
      → Spares q m
      → Spares q (cleaning tmp m)
  unfolding cleaning
  cleaning-Spares tmp m out sm = search (disk_rules, or_remove_all-Spares)

  place_version-Spares :
      is_under (model_dir s request.model_name) q ≡ false
      → is_under q (model_dir s request.model_name ++ ("versions" ∷ [])) ≡ false
      → Spares q (place_version e s now request)
  unfolding place_version ensure_layout
  place_version-Spares out above =
      let n = clean_path_part request.model_name in
      let dir = model_dir s n in
      let inside = cleaned s request.model_name q out in
      let upward : is_under q (dir ++ ("versions" ∷ [])) ≡ false =
        ap (λ p. is_under q (p ++ ("versions" ∷ []))) (model_dir_idem s request.model_name)
        ∙ above in
      let version = version_dir-outside s n q inside in
      let work : NodePath → Io StoreError (Unit {0}) = λ t. cleaning t (
        fill e t request (request_manifest now request)
        >> lift StoreError.io (rename t (version_dir s n (clean_path_part request.version_id)))) in
      let prefix = ".install-" <> clean_path_part request.version_id <> "-" in
      let temporary : Spares q (lift StoreError.io (mkdir_temp dir prefix) >>= work) =
        Spares-mkdir_temp_bind StoreError.io dir prefix work inside (λ tmp.
          let at = outside-append dir ((prefix <> tmp) ∷ []) q inside in
          search (reading_rules, cleaning-Spares, fill-Spares, version, at) depth 30) in
      Spares-bind _ _ (Spares-lift _ _ (Spares-mkdir_all _ upward)) (λ _.
        Spares-bind _ _ (Spares-try _ (Spares-stat _))
          (λ found. Spares-bind _ _ (must_be_missing-Spares q found) (λ _. temporary)))

  check_request-Spares : Spares q (check_request request)
  unfolding check_request
  check_request-Spares = search spares_rules depth 20

  activate_if-Spares :
      (name id : String) (b : Bool)
      → is_under (model_dir s name) q ≡ false
      → is_under q (model_dir s name) ≡ false
      → Spares q (activate_if b e s name id)
  activate_if-Spares name id false out above = search spares_rules
  activate_if-Spares name id true out above =
      Spares-bind _ _ (activate_version-Spares s name q out e id above) (λ a. Spares-pure _)

  pub install_local_file-Spares :
      is_under (model_dir s request.model_name) q ≡ false
      → is_under q (model_dir s request.model_name ++ ("versions" ∷ [])) ≡ false
      → Spares q (install_local_file e s now request)
  unfolding install_local_file
  install_local_file-Spares out above =
      let name = clean_path_part request.model_name in
      let same = model_dir_idem s request.model_name in
      let upward : is_under q (model_dir s name) ≡ false =
        ap (is_under q) same
        ∙ outside-prefix q (model_dir s request.model_name) ("versions" ∷ []) above in
      Spares-bind _ _ check_request-Spares (λ _.
        Spares-bind _ _ (place_version-Spares out above) (λ _.
          Spares-bind _ _
            (activate_if-Spares name _ request.activate (cleaned s request.model_name q out) upward)
            (λ _. Spares-pure _)))

operations_isolated :
    (e : Encodings) (s : ModelStore) (now : ℕ) (request : InstallRequest) (id : String)
    (q : NodePath)
    → let name = request.model_name in
      is_under (model_dir s name) q ≡ false
      → is_under q (model_dir s name ++ ("versions" ∷ [])) ≡ false
      → Spares q (install_local_file e s now request)
        × Spares q (activate_version e s name id)
        × Spares q (rollback_latest e s name)
        × Spares q (delete_version e s name id)
        × Spares q (delete_model s name)
operations_isolated e s now request id q out above =
    let name = request.model_name in
    (
      install_local_file-Spares s e now request q out above,
      activate_version-Spares s name q out e id
          (outside-prefix q (model_dir s name) ("versions" ∷ []) above),
      rollback_latest-Spares s name q out e,
      delete_version-Spares s name q out e id,
      delete_model-Spares s name q out,
    )

-- Take two models whose cleaned names differ, neither of them `..`. Whatever faults an install, an
-- activation, a rollback, the deletion of a version or the deletion of the one model meets, and
-- however it ends, what stands at any path in the folder of the other is the same after it.
pub models_isolated :
    (e : Encodings) (s : ModelStore) (now : ℕ) (request : InstallRequest) (id other : String)
    (r : NodePath)
    → let name = request.model_name in
      let q = model_dir s other ++ r in
      (clean_path_part name == "..") ≡ false
      → (clean_path_part other == "..") ≡ false
      → (clean_path_part name == clean_path_part other) ≡ false
      → Spares q (install_local_file e s now request)
        × Spares q (activate_version e s name id)
        × Spares q (rollback_latest e s name)
        × Spares q (delete_version e s name id)
        × Spares q (delete_model s name)
models_isolated e s now request id other r h h' apart =
    let name = clean_path_part request.model_name in
    let here = model_dir-of_name s request.model_name h in
    let there : model_dir s other ++ r ≡ s.root ++ (clean_path_part other ∷ r) =
      ap (λ p. p ++ r) (model_dir-of_name s other h')
      ∙ append_assoc s.root (clean_path_part other ∷ []) r in
    let apart' : (clean_path_part other == name) ≡ false =
      ground (arith, eq_iff name (clean_path_part other), eq_iff (clean_path_part other) name) in
    operations_isolated e s now request id (model_dir s other ++ r)
      (ap (λ p. is_under p (model_dir s other ++ r)) here
        ∙ ap (is_under (s.root ++ (name ∷ []))) there
        ∙ siblings-outside s.root name (clean_path_part other) [] r apart)
      (ap (λ p. is_under p (model_dir s request.model_name ++ ("versions" ∷ []))) there
        ∙ ap (λ p. is_under (s.root ++ (clean_path_part other ∷ r)) (p ++ ("versions" ∷ []))) here
        ∙ ap (is_under (s.root ++ (clean_path_part other ∷ r)))
            (append_assoc s.root (name ∷ []) ("versions" ∷ []))
        ∙ siblings-outside s.root (clean_path_part other) name r ("versions" ∷ []) apart')
