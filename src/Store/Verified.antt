-- ===== src/Store/Verified.antt =====
-- internal/storage/models.go: the files of an installed version.
use yllmd.Base.{
  ℕ, Bool, true, false, String, ◌<>◌, some, [], ◌∷◌, ◌++◌, Result, ok, err, ◌≡◌, refl, ap, sym, ◌∙◌,
  arith, ◌==◌, ◌!=◌, string_eq,
}
use mathlib.Core.Path.{subst}
use mathlib.Core.List.{append_assoc}
use text.Mathlib.TextLemmas.{append_assoc as text_assoc}
use text.Mathlib.TextEquality.{eq_iff}
use yllmd.Wire.Bytes.{Bytes}
use yllmd.Disk.Paths.{NodePath, is_under, siblings-outside, entry-above}
use yllmd.Disk.Actions.{file, Disk, Io, pure, raise, ignore, ◌>>=◌}
use yllmd.Disk.{find, remove_all}
use yllmd.Disk.Find.{find-move-inside}
use yllmd.Disk.Spares.{Spares, Spares-lift, Spares-write_file, Spares-bind, Spares-pure}
use yllmd.Disk.Returned.{
  Returns, bind-Returns, lift-Returns, failed-Returns, read_file-Returns, rename-Returns,
  mkdir_temp-Returns,
}
use yllmd.Disk.Outcomes.{refuse-Returns, try-Returns, pure-Returns, Spares-Returns}
use yllmd.Store.{ModelStore, InstallRequest, InstallResult, Manifest, StoreError, Encodings}
use yllmd.Store.Layout.{clean_path_part, model_dir, version_dir, version_model_path}
use yllmd.Store.Files.{normal_checksum, verify_sha256, write_json, write_manifest, write_checksum}
use yllmd.Store.Activating.{activate_version}
use yllmd.Store.Installing.{
  cleaning, or_remove_all, fill, request_manifest, place_version, activate_if, install_local_file,
}
use yllmd.Store.Names.{clean_path_part_idem}
use yllmd.Store.Places.{version_dir-of_name, temporary-outside}
use yllmd.Store.Spared.{disk_rules, reading_rules}

-- A file with the checksum that was asked for.
abbrev pub HasChecksum : Encodings → String → NodePath → Disk → Type 0
HasChecksum e sum p d =
    (bytes : Bytes) × (find p d.files ≡ some (file bytes))
    × (e.sha256_hex bytes ≡ normal_checksum sum)

verify_sha256-Returns :
    (e : Encodings) (p : NodePath) (sum : String) (d : Disk) {d' : Disk}
    → Returns (verify_sha256 e p sum) d tt d'
    → HasChecksum e sum p d'
unfolding verify_sha256
verify_sha256-Returns e p sum d h =
    let (_, d1, long, h1) = bind-Returns _ _ d h in
    let (_, d2, hex, h2) = bind-Returns _ _ d1 h1 in
    let (bytes, d3, read, h3) = bind-Returns _ _ d2 h2 in
    let (found, same) = read_file-Returns p d2 (lift-Returns _ _ d2 read) in
    let (equal, last) = refuse-Returns (e.sha256_hex bytes != normal_checksum sum) _ d3 h3 in
    (
      bytes,
      ap (λ x. find p x.files) (sym last) ∙ ap (find p) same ∙ found,
      ground (arith, eq_iff (e.sha256_hex bytes) (normal_checksum sum)),
    )

or_remove_all-Returns :
    {A : Type 0} (tmp : NodePath) (r : Result StoreError A) (d : Disk) {a : A} {d' : Disk}
    → Returns (or_remove_all tmp r) d a d'
    → ◌≡◌ {A = Result StoreError A × Disk} (r, d) (ok a, d')
unfolding pure raise ◌>>=◌ ignore
or_remove_all-Returns tmp (ok a) d h = h
or_remove_all-Returns tmp (err e) d h = failed-Returns e (remove_all tmp d).1 h

cleaning-Returns :
    {A : Type 0} (tmp : NodePath) (m : Io StoreError A) (d : Disk) {a : A} {d' : Disk}
    → Returns (cleaning tmp m) d a d'
    → Returns m d a d'
unfolding cleaning
cleaning-Returns tmp m d h =
    let (r, d1, tried, h1) = bind-Returns _ _ d h in
    let (out, at) = try-Returns m d tried in
    ap (λ o. (o, (m d).1)) out ∙ ap (λ x. (r, x)) at ∙ or_remove_all-Returns tmp r d1 h1

HasChecksum-kept :
    (e : Encodings) (sum : String) (p : NodePath) {E A : Type 0} (m : Io E A) (d : Disk) {a : A}
    {d' : Disk}
    → Spares p m
    → Returns m d a d'
    → HasChecksum e sum p d
    → HasChecksum e sum p d'
HasChecksum-kept e sum p m d sm h (bytes, found, equal) =
    (bytes, Spares-Returns m d sm h ∙ found, equal)

fill-Returns :
    (e : Encodings) (dir : NodePath) (request : InstallRequest) (manifest : Manifest) (d : Disk)
    {d' : Disk}
    → Returns (fill e dir request manifest) d tt d'
    → HasChecksum e request.sha256 (dir ++ ("model.gguf" ∷ [])) d'
unfolding fill write_manifest write_json write_checksum
fill-Returns e dir request manifest d h =
    let p = dir ++ ("model.gguf" ∷ []) in
    let (_, d1, copied, h1) = bind-Returns _ _ d h in
    let (_, d2, verified, h2) = bind-Returns _ _ d1 h1 in
    let (_, d3, wrote, h3) = bind-Returns _ _ d2 h2 in
    let apart : (name : String)
        → (name == "model.gguf") ≡ false
        → is_under (dir ++ (name ∷ [])) p ≡ false =
      λ name. siblings-outside dir name "model.gguf" [] [] in
    HasChecksum-kept e request.sha256 p _ d3
      (Spares-lift _ _ (Spares-write_file _ _ (apart "checksum.sha256" refl))) h3
      (HasChecksum-kept e request.sha256 p _ d2
        (Spares-lift _ _ (Spares-write_file _ _ (apart "manifest.json" refl))) wrote
        (verify_sha256-Returns e p request.sha256 d1 verified))

prefix_assoc :
    (id tail : String) → (".install-" <> id <> "-") <> tail ≡ ".install-" <> ((id <> "-") <> tail)
prefix_assoc id tail = text_assoc ".install-" (id <> "-") tail

module _ (e : Encodings) (s : ModelStore) (now : ℕ) (request : InstallRequest) where
  abbrev placed_at : NodePath
  placed_at =
      version_model_path s (clean_path_part request.model_name) (clean_path_part request.version_id)

  place_version-Returns :
      (clean_path_part (clean_path_part request.version_id) == "..") ≡ false
      → (d : Disk) {d' : Disk} → Returns (place_version e s now request) d tt d'
      → HasChecksum e request.sha256 placed_at d'
  unfolding place_version
  place_version-Returns proper d {d' = d'} h =
      let dir = model_dir s (clean_path_part request.model_name) in
      let id = clean_path_part request.version_id in
      let to = version_dir s (clean_path_part request.model_name) id in
      let (_, d1, _, h1) = bind-Returns _ _ d h in
      let (_, d2, _, h2) = bind-Returns _ _ d1 h1 in
      let (_, d3, _, h3) = bind-Returns _ _ d2 h2 in
      let (tmp, d4, made, h4) = bind-Returns _ _ d3 h3 in
      let (tail, place) = mkdir_temp-Returns dir _ d3 (lift-Returns _ _ d3 made) in
      let (_, d5, filled, h5) = bind-Returns _ _ d4 (cleaning-Returns tmp _ d4 h4) in
      let (bytes, found, equal) =
        fill-Returns e tmp request (request_manifest now request) d4 filled in
      let moves = rename-Returns tmp to d5 (lift-Returns _ _ d5 h5) in
      let name = clean_path_part request.model_name in
      let outside =
        temporary-outside s name id _ tmp ("model.gguf" ∷ []) proper
          (place ∙ ap (λ t. dir ++ (t ∷ [])) (prefix_assoc id tail)) in
      (
        bytes,
        ap (find placed_at) moves
            ∙ find-move-inside tmp to ("model.gguf" ∷ []) d5.files outside
            ∙ found,
        equal,
      )

  -- An activation leaves the versions' folders alone.
  activate_version-Spares :
      (name id : String) (r : NodePath)
      → Spares (model_dir s name ++ ("versions" ∷ r)) (activate_version e s name id)
  unfolding activate_version write_json
  activate_version-Spares name id r =
      let dir = model_dir s name in
      let apart : (entry : String)
          → (entry == "versions") ≡ false
          → is_under (dir ++ (entry ∷ [])) (dir ++ ("versions" ∷ r)) ≡ false =
        λ entry. siblings-outside dir entry "versions" [] r in
      let above = entry-above dir "versions" r in
      let next = apart "current.next" refl in
      let current = apart "current" refl in
      let back = apart "rollback.json" refl in
      search (reading_rules, above, next, current, back) depth 30

  activate_if-Spares :
      (b : Bool) (name id : String) (r : NodePath)
      → Spares (model_dir s name ++ ("versions" ∷ r)) (activate_if b e s name id)
  activate_if-Spares false name id r = search disk_rules
  activate_if-Spares true name id r =
      Spares-bind _ _ (activate_version-Spares name id r) (λ a. Spares-pure _)

  -- When an install of a version that is not `..` returns without an error, with an activation or
  -- without, the file at the model path of its result has the SHA-256 that was asked for.
  pub install_verified :
      (clean_path_part request.version_id == "..") ≡ false
      → (d : Disk) {r : InstallResult} {d' : Disk}
      → Returns (install_local_file e s now request) d r d'
      → HasChecksum e request.sha256 r.model_path d'
  unfolding install_local_file
  install_verified proper d {d' = d'} h =
      let name = clean_path_part request.model_name in
      let id = clean_path_part request.version_id in
      let still = ap (λ x. x == "..") (clean_path_part_idem request.version_id) ∙ proper in
      let (_, d1, _, h1) = bind-Returns _ _ d h in
      let (_, d2, placed, h2) = bind-Returns _ _ d1 h1 in
      let (a, d3, activated, h3) = bind-Returns _ _ d2 h2 in
      let at : placed_at
          ≡ model_dir s name ++ ("versions" ∷ clean_path_part id ∷ "model.gguf" ∷ []) =
        ap (λ p. p ++ ("model.gguf" ∷ [])) (version_dir-of_name s name id still)
        ∙ append_assoc (model_dir s name) ("versions" ∷ clean_path_part id ∷ [])
            ("model.gguf" ∷ []) in
      let kept =
        HasChecksum-kept e request.sha256 placed_at _ d2
          (subst (λ p. Spares p (activate_if request.activate e s name id)) (sym at)
            (activate_if-Spares request.activate name id _))
          activated (place_version-Returns still d1 placed) in
      let (same, last) = pure-Returns _ d3 h3 in
      subst (HasChecksum e request.sha256 _) last
        (subst (λ (x : InstallResult). HasChecksum e request.sha256 x.model_path d3) same kept)
