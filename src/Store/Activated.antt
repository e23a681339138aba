-- ===== src/Store/Activated.antt =====
-- internal/storage/models.go: the link and the rollback record that an activation leaves.
use yllmd.Base.{
  false, String, Option, none, some, [], ◌∷◌, ◌++◌, Result, ok, err, ◌≡◌, refl, ap, sym, ◌∙◌, ◌==◌,
  string_eq, inl, inr, ◌⊎◌, Bool-cases, if◌then◌else◌,
}
use mathlib.Core.Path.{subst}
use text.Mathlib.TextEquality.{eq_iff}
use yllmd.Disk.Paths.{NodePath, is_under, siblings-outside, entry-above}
use yllmd.Disk.Actions.{
  Node, file, link, IoError, failed, not_exist, Disk, pure, raise, ignore, ◌>>=◌,
}
use yllmd.Disk.{find, rename, remove, symlink, read_link, target_of}
use yllmd.Disk.Find.{find-put_same, find-move_end}
use yllmd.Disk.Spares.{Spares-lift, Spares-write_file, Spares-stat, Spares-mkdir_all}
use yllmd.Disk.Returned.{
  Returns, bind-Returns, lift-Returns, failed-Returns, symlink-Returns, rename-Returns,
  write_file-Returns,
}
use yllmd.Disk.Outcomes.{try-Returns, pure-Returns, Spares-Returns, read_link-outcome}
use yllmd.Base.FilePath.{join}
use yllmd.Store.{ModelStore, Activation, StoreError, Encodings}
use yllmd.Store.Layout.{clean_path_part, model_dir, current_dir, version_dir, rollback_path}
use yllmd.Store.Files.{write_json}
use yllmd.Store.Activating.{version_of, link_or_empty, or_remove, replace_link, activate_version}
use yllmd.Store.Names.{clean_path_part-IsName}
use yllmd.Store.Targets.{version_of-target}
use yllmd.Store.Spared.{require_dir-Spares}

or_remove-Returns :
    (tmp : NodePath) (r : Result IoError (Unit {0})) (d : Disk) {d' : Disk}
    → Returns (or_remove tmp r) d tt d'
    → ◌≡◌ {A = Result IoError (Unit {0}) × Disk} (r, d) (ok tt, d')
unfolding pure raise ◌>>=◌ ignore
or_remove-Returns tmp (ok _) d h = h
or_remove-Returns tmp (err e) d h = failed-Returns e (remove tmp d).1 h

-- A link made at one path and moved to another.
pub linked :
    (target : String) (tmp current : NodePath) (d d₁ : Disk) {d' : Disk}
    → is_under current tmp ≡ false
    → Returns (symlink target tmp) d tt d₁
    → Returns (replace_link tmp current) d₁ tt d'
    → find current d'.files ≡ some (link target)
unfolding replace_link
linked target tmp current d d₁ {d' = d'} apart made h =
    let (r, d2, tried, h2) = bind-Returns _ _ d₁ h in
    let (out, at) = try-Returns (rename tmp current) d₁ tried in
    let renamed : Returns (rename tmp current) d₁ tt d' =
      ap (λ o. (o, (rename tmp current d₁).1)) out
      ∙ ap (λ x. (r, x)) at
      ∙ or_remove-Returns tmp r d2 h2 in
    ap (find current) (rename-Returns tmp current d₁ renamed)
    ∙ find-move_end tmp current d₁.files apart
    ∙ ap (find tmp) (symlink-Returns target tmp d made)
    ∙ find-put_same tmp (link target) d.files

-- A link with a target, or none.
abbrev pub link_to : String → Option Node
link_to target = if target == "" then none else some (link target)

-- What is remembered of the link before.
link_or_empty-Returns :
    (r : Result IoError String) (target : String) (d : Disk) {previous : String} {d' : Disk}
    → (r ≡ target_of (link_to target)) ⊎ (r ≡ err failed)
    → Returns (link_or_empty r) d previous d'
    → previous ≡ target
unfolding raise
link_or_empty-Returns r target d {previous = p} {d' = d'} (inl same) h =
    elim (Bool-cases (target == "")) [
      | inl empty ↦
          let out : r ≡ err not_exist =
            same ∙ ap (λ b. target_of (if b then none else some (link target))) empty in
          sym (pure-Returns "" d (subst (λ x. Returns (link_or_empty x) d p d') out h)).0
          ∙ sym ((eq_iff target "").0 empty)
      | inr full ↦
          let out : r ≡ ok target =
            same ∙ ap (λ b. target_of (if b then none else some (link target))) full in
          sym (pure-Returns target d (subst (λ x. Returns (link_or_empty x) d p d') out h)).0
    ]
link_or_empty-Returns r target d {previous = p} {d' = d'} (inr broke) h =
    failed-Returns (StoreError.io failed) d (subst (λ x. Returns (link_or_empty x) d p d') broke h)

module _ (e : Encodings) (s : ModelStore) (name id : String) (d : Disk) {a : Activation}
    {d' : Disk} where
  -- When the activation of a version that is not `..` returns without an error, the model's
  -- `current` link names that version, and the rollback record holds the activation that was
  -- returned.
  pub activate_version_links :
      (clean_path_part id == "..") ≡ false
      → Returns (activate_version e s name id) d a d'
      → (target : String) × (find (current_dir s name) d'.files ≡ some (link target))
        × (version_of target ≡ clean_path_part id)
        × (find (rollback_path s name) d'.files ≡ some (file (e.activations.encode a ++ (10 ∷ []))))
  unfolding activate_version write_json
  activate_version_links proper h =
      let dir = model_dir s name in
      let q = current_dir s name in
      let (_, d1, _, h1) = bind-Returns _ _ d h in
      let (_, d2, _, h2) = bind-Returns _ _ d1 h1 in
      let (_, d3, _, h3) = bind-Returns _ _ d2 h2 in
      let (found, d4, read, h4) = bind-Returns _ _ d3 h3 in
      let (previous, d5, taken, h5) = bind-Returns _ _ d4 h4 in
      let (_, d6, _, h6) = bind-Returns _ _ d5 h5 in
      let (_, d7, made, h7) = bind-Returns _ _ d6 h6 in
      let (_, d8, replaced, h8) = bind-Returns _ _ d7 h7 in
      let (_, d9, wrote, h9) = bind-Returns _ _ d8 h8 in
      let (same, last) = pure-Returns _ d9 h9 in
      let target = join ("versions" ∷ clean_path_part id ∷ []) in
      let now =
        linked target _ q d6 d7 (siblings-outside dir "current" "current.next" [] [] refl)
          (lift-Returns _ _ d6 made) (lift-Returns _ _ d7 replaced) in
      let kept =
        Spares-Returns _ d8
          (Spares-lift _ _
            (Spares-write_file _ _ (siblings-outside dir "rollback.json" "current" [] [] refl)))
          wrote in
      let written = write_file-Returns (rollback_path s name) _ d8 (lift-Returns _ _ d8 wrote) in
      (
        target,
        ap (λ x. find q x.files) (sym last) ∙ kept ∙ now,
        version_of-target (clean_path_part id) (clean_path_part-IsName id) proper,
        ap (λ x. find (rollback_path s name) x.files) (sym last)
            ∙ ap (find (rollback_path s name)) written
            ∙ find-put_same (rollback_path s name) _ d8.files
            ∙ ap (λ x. some (file (e.activations.encode x ++ (10 ∷ [])))) same,
      )

  pub activate_version_remembers :
      (target : String)
      → find (current_dir s name) d.files ≡ link_to target
      → Returns (activate_version e s name id) d a d'
      → (a.previous_target ≡ target) × (a.model_name ≡ clean_path_part name)
  unfolding activate_version
  activate_version_remembers target there h =
      let q = current_dir s name in
      let (_, d1, checked, h1) = bind-Returns _ _ d h in
      let (_, d2, model, h2) = bind-Returns _ _ d1 h1 in
      let (_, d3, folders, h3) = bind-Returns _ _ d2 h2 in
      let (found, d4, read, h4) = bind-Returns _ _ d3 h3 in
      let (previous, d5, taken, h5) = bind-Returns _ _ d4 h4 in
      let (_, d6, _, h6) = bind-Returns _ _ d5 h5 in
      let (_, d7, _, h7) = bind-Returns _ _ d6 h6 in
      let (_, d8, _, h8) = bind-Returns _ _ d7 h7 in
      let (_, d9, _, h9) = bind-Returns _ _ d8 h8 in
      let (same, _) = pure-Returns _ d9 h9 in
      let kept : find q d3.files ≡ find q d.files =
        Spares-Returns _ d2
          (Spares-lift _ _ (Spares-mkdir_all _ (entry-above (model_dir s name) "current" [])))
          folders
        ∙ Spares-Returns _ d1 (Spares-lift _ _ (Spares-stat _)) model
        ∙ Spares-Returns _ d (require_dir-Spares q (version_dir s name id)) checked in
      let seen : (found ≡ target_of (link_to target)) ⊎ (found ≡ err failed) =
        elim (read_link-outcome q d3) [
          | inl looked ↦
              inl (sym (try-Returns (read_link q) d3 read).0 ∙ looked ∙ ap target_of (kept ∙ there))
          | inr broke ↦ inr (sym (try-Returns (read_link q) d3 read).0 ∙ broke)
        ] in
      (
        sym (ap (λ (x : Activation). x.previous_target) same)
            ∙ link_or_empty-Returns found target d4 seen taken,
        sym (ap (λ (x : Activation). x.model_name) same),
      )
