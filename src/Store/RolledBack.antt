-- ===== src/Store/RolledBack.antt =====
-- internal/storage/models.go: a rollback undoes the activation before it.
use yllmd.Base.{
  true, false, String, Option, none, some, [], ◌∷◌, ◌++◌, ◌≡◌, refl, ap, sym, ◌∙◌, ◌==◌, string_eq,
  inl, inr, Bool-cases, if◌then◌else◌,
}
use mathlib.Core.List.{append-nil}
use yllmd.Wire.Bytes.{Bytes}
use yllmd.Disk.Paths.{NodePath, is_under, siblings-outside, is_under_self}
use yllmd.Disk.Actions.{Node, file, link, IoError, Disk, Io, raise, ignore, ◌>>◌}
use yllmd.Disk.{find, remove, symlink}
use yllmd.Disk.Find.{find-drop_under}
use yllmd.Disk.Spares.{Spares-ignore, Spares-remove}
use yllmd.Disk.Returned.{
  Returns, bind-Returns, lift-Returns, failed-Returns, read_file-Returns, remove-Returns,
}
use yllmd.Disk.Outcomes.{pure-Returns, if-Returns, Spares-Returns}
use yllmd.Store.{ModelStore, Activation, RollbackResult, StoreError, Codec, Encodings}
use yllmd.Store.Layout.{clean_path_part, model_dir, current_dir, rollback_path, under}
use yllmd.Store.Files.{decoded, read_json}
use yllmd.Store.Activating.{activate_version, replace_link, rollback_activation, rollback_latest}
use yllmd.Store.Places.{model_dir_idem}
use yllmd.Store.Activated.{link_to, linked, activate_version_links, activate_version_remembers}

decoded-Returns :
    {A : Type 0} (o : Option A) (d : Disk) {a : A} {d' : Disk}
    → Returns (decoded o) d a d'
    → (o ≡ some a) × (d ≡ d')
unfolding raise
decoded-Returns none d h = failed-Returns StoreError.bad_json d h
decoded-Returns (some a) d h = let (same, last) = pure-Returns a d h in (ap some same, last)

read_json-Returns :
    {A : Type 0} (c : Codec A) (p : NodePath) (d : Disk) {a : A} {d' : Disk}
    → Returns (read_json c p) d a d'
    → (bytes : Bytes) × (find p d.files ≡ some (file bytes)) × (c.decode bytes ≡ some a)
unfolding read_json
read_json-Returns c p d h =
    let (bytes, d1, read, h1) = bind-Returns _ _ d h in
    let (found, same) = read_file-Returns p d (lift-Returns _ _ d read) in
    (bytes, found, (decoded-Returns (c.decode bytes) d1 h1).0)

-- What was written is what is read.
read_json-written :
    {A : Type 0} (c : Codec A) (p : NodePath) (d : Disk) (a : A) {b : A} {d' : Disk}
    → c.decode (c.encode a ++ (10 ∷ [])) ≡ some a
    → find p d.files ≡ some (file (c.encode a ++ (10 ∷ [])))
    → Returns (read_json c p) d b d'
    → b ≡ a
read_json-written c p d a {b = b} reads there h =
    let (bytes, found, means) = read_json-Returns c p d h in
    let text : some (file bytes) ≡ some (file (c.encode a ++ (10 ∷ []))) = sym found ∙ there in
    let same : bytes ≡ c.encode a ++ (10 ∷ []) = cc in
    let both : some b ≡ some a = sym means ∙ ap c.decode same ∙ reads in cc

relinked : ModelStore → Activation → Io IoError (Unit {0})
relinked s a =
    let tmp = under (model_dir s a.model_name) "current.rollback" in
    ignore (remove tmp)
    >> (symlink a.previous_target tmp >> replace_link tmp (current_dir s a.model_name))

rollback_activation-Returns :
    (s : ModelStore) (a : Activation) (d : Disk) {d' : Disk}
    → Returns (rollback_activation s a) d tt d'
    → find (current_dir s a.model_name) d'.files ≡ link_to a.previous_target
unfolding rollback_activation relinked
rollback_activation-Returns s a d {d' = d'} h =
    let q = current_dir s a.model_name in
    let tmp = under (model_dir s a.model_name) "current.rollback" in
    let named : Option Node → Type 0 = λ o. find q d'.files ≡ o in
    elim (Bool-cases (a.previous_target == "")) [
      | inl empty ↦
          let gone = remove-Returns q d (if-Returns _ true (remove q) (relinked s a) d empty h) in
          ap (find q) gone
          ∙ find-drop_under q q d.files
          ∙ ap (λ b. if b then none else find q d.files)
              (ap (is_under q) (sym (append-nil q)) ∙ is_under_self q [])
          ∙ sym (ap (λ b. if b then none else some (link a.previous_target)) empty)
      | inr full ↦
          let back = if-Returns _ false (remove q) (relinked s a) d full h in
          let (_, d1, _, h1) = bind-Returns _ _ d back in
          let (_, d2, made, h2) = bind-Returns _ _ d1 h1 in
          linked a.previous_target tmp q d1 d2
            (siblings-outside (model_dir s a.model_name) "current" "current.rollback" [] [] refl)
            made h2
          ∙ sym (ap (λ b. if b then none else some (link a.previous_target)) full)
    ]

module _ (e : Encodings) (s : ModelStore) (name id target : String) (d d₁ : Disk) {a : Activation}
    {r : RollbackResult} {d₂ : Disk} where
  -- Take a model whose `current` link is missing or has a target, and a version that is not `..`.
  -- When an activation and then a rollback return without an error, and the record of the
  -- activation decodes to it, the link is again what it was, or is missing again.
  pub activate_then_rollback :
      (clean_path_part id == "..") ≡ false
      → e.activations.decode (e.activations.encode a ++ (10 ∷ [])) ≡ some a
      → find (current_dir s name) d.files ≡ link_to target
      → Returns (activate_version e s name id) d a d₁
      → Returns (rollback_latest e s name) d₁ r d₂
      → find (current_dir s name) d₂.files ≡ link_to target
  unfolding rollback_latest
  activate_then_rollback proper reads there activated h =
      let n = clean_path_part name in
      let (_, _, _, written) = activate_version_links e s name id d proper activated in
      let (previous, named) = activate_version_remembers e s name id d target there activated in
      let (b, d3, read, h1) = bind-Returns _ _ d₁ h in
      let (_, d4, _, h2) = bind-Returns _ _ d3 h1 in
      let (_, d5, back, h3) = bind-Returns _ _ d4 h2 in
      let (_, d6, cleared, h4) = bind-Returns _ _ d5 h3 in
      let (_, last) = pure-Returns _ d6 h4 in
      let dir = model_dir_idem s name in
      let same : b ≡ a =
        read_json-written e.activations (rollback_path s n) d₁ a reads
          (ap (λ p. find (p ++ ("rollback.json" ∷ [])) d₁.files) dir ∙ written) read in
      let kept =
        Spares-Returns _ d5
          (Spares-ignore _ (
            Spares-remove _
              (siblings-outside (model_dir s n) "rollback.json" "current" [] [] refl)))
          cleared in
      let restored = rollback_activation-Returns s b d4 (lift-Returns _ _ d4 back) in
      let place : current_dir s b.model_name ≡ current_dir s name =
        ap (λ (x : Activation). current_dir s x.model_name) same
        ∙ ap (current_dir s) named
        ∙ ap (λ p. p ++ ("current" ∷ [])) dir in
      ap (λ x. find (current_dir s name) x.files) (sym last)
      ∙ ap (λ p. find (p ++ ("current" ∷ [])) d6.files) (sym dir)
      ∙ kept
      ∙ ap (λ p. find (p ++ ("current" ∷ [])) d5.files) dir
      ∙ ap (λ p. find p d5.files) (sym place)
      ∙ restored
      ∙ ap (λ (x : Activation). link_to x.previous_target) same
      ∙ ap link_to previous
