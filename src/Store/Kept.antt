-- ===== src/Store/Kept.antt =====
-- internal/storage/models.go: deletions leave the active version, and the version of the rollback record.
use mathlib.Core.Path.{subst}
use mathlib.Core.List.{append_assoc}
use text.Mathlib.TextEquality.{eq_iff}
use yllmd.Base.{
  false, String, some, [], ◌∷◌, ◌++◌, ◌≡◌, refl, ap, sym, ◌∙◌, arith, ◌==◌, string_eq, inl, inr,
  Bool-cases,
}
use yllmd.Wire.Bytes.{Bytes}
use yllmd.Disk.Paths.{NodePath, is_under, siblings-outside}
use yllmd.Disk.Actions.{file, link, Disk}
use yllmd.Disk.{find}
use yllmd.Disk.Spares.{Spares}
use yllmd.Disk.Returned.{Returns}
use yllmd.Disk.Outcomes.{Spares-Returns}
use yllmd.Store.{ModelStore, Activation, InstallRequest, DeleteResult, Encodings}
use yllmd.Store.Layout.{clean_path_part, model_dir, current_dir, version_dir, rollback_path}
use yllmd.Store.Activating.{version_or_empty}
use yllmd.Store.Deleting.{delete_version, delete_model}
use yllmd.Store.Names.{clean_path_part-IsName, clean_path_part_idem}
use yllmd.Store.Places.{model_dir_idem, version_dir-of_name}
use yllmd.Store.Targets.{target_text, version_of-text, version_or_empty-text}
use yllmd.Store.Guards.{
  delete_version_never_active, delete_version_never_rollback, delete_model_never_active,
}
use yllmd.Store.Isolation.{models_isolated, delete_version_alone-Spares}

swap_apart : (a b : String) → (a == b) ≡ false → (b == a) ≡ false
swap_apart a b h = ground (arith, eq_iff a b, eq_iff b a)

module _ (s : ModelStore) (name id : String) (proper : (clean_path_part id == "..") ≡ false) where
  deleted_dir :
      version_dir s (clean_path_part name) (clean_path_part id)
      ≡ model_dir s name ++ ("versions" ∷ clean_path_part id ∷ [])
  deleted_dir =
      let idem = clean_path_part_idem id in
      version_dir-of_name s (clean_path_part name) (clean_path_part id)
        (ap (λ v. v == "..") idem ∙ proper)
      ∙ ap (λ v. model_dir s (clean_path_part name) ++ ("versions" ∷ v ∷ [])) idem
      ∙ ap (λ p. p ++ ("versions" ∷ clean_path_part id ∷ [])) (model_dir_idem s name)

  -- The deletion of a version spares what stands beside it in the folder of the model.
  beside-Spares :
      (e : Encodings) (a b : String) (r r' : NodePath)
      → ("versions" ∷ clean_path_part id ∷ []) ≡ a ∷ r
      → is_under (model_dir s name ++ (a ∷ r)) (model_dir s name ++ (b ∷ r')) ≡ false
      → Spares (model_dir s name ++ (b ∷ r')) (delete_version e s name id)
  beside-Spares e a b r r' same apart =
      let q = model_dir s name ++ (b ∷ r') in
      delete_version_alone-Spares s name q e id
        (ap (λ p. is_under p q) (deleted_dir ∙ ap (λ p. model_dir s name ++ p) same) ∙ apart)

  entry-Spares :
      (e : Encodings) (entry : String)
      → ("versions" == entry) ≡ false
      → Spares (model_dir s name ++ (entry ∷ [])) (delete_version e s name id)
  entry-Spares e entry apart =
      beside-Spares e "versions" entry (clean_path_part id ∷ []) [] refl
        (siblings-outside (model_dir s name) "versions" entry (clean_path_part id ∷ []) [] apart)

  version-Spares :
      (e : Encodings) (version : String) (q : NodePath)
      → (clean_path_part version == "..") ≡ false
      → (clean_path_part version == clean_path_part id) ≡ false
      → Spares (version_dir s name version ++ q) (delete_version e s name id)
  version-Spares e version q proper' apart =
      let dir = model_dir s name in
      let versions = dir ++ ("versions" ∷ []) in
      let v = clean_path_part version in
      let i = clean_path_part id in
      let place : version_dir s name version ++ q ≡ dir ++ ("versions" ∷ v ∷ q) =
        ap (λ p. p ++ q) (version_dir-of_name s name version proper')
        ∙ append_assoc dir ("versions" ∷ v ∷ []) q in
      let out : is_under (dir ++ ("versions" ∷ i ∷ [])) (dir ++ ("versions" ∷ v ∷ q)) ≡ false =
        ap (λ p. is_under p (dir ++ ("versions" ∷ v ∷ q)))
          (sym (append_assoc dir ("versions" ∷ []) (i ∷ [])))
        ∙ ap (is_under (versions ++ (i ∷ []))) (sym (append_assoc dir ("versions" ∷ []) (v ∷ q)))
        ∙ siblings-outside versions i v [] q (swap_apart v i apart) in
      subst (λ p. Spares p (delete_version e s name id)) (sym place)
        (beside-Spares e "versions" "versions" (i ∷ []) (v ∷ q) refl out)

module _ (e : Encodings) (s : ModelStore) (name id version : String) (d : Disk) {r : DeleteResult}
    {d' : Disk} where
  -- Take a model whose `current` link leads to `versions/` and the cleaned name of a version, and a
  -- version to delete; neither cleaned name is `..`. When `DeleteVersion` returns without an error, the
  -- link is as it was, and so is all that stands in the folder of the version that it leads to.
  pub delete_version_keeps_active :
      (clean_path_part id == "..") ≡ false
      → (clean_path_part version == "..") ≡ false
      → find (current_dir s name) d.files ≡ some (link (target_text (clean_path_part version)))
      → Returns (delete_version e s name id) d r d'
      → (find (current_dir s name) d'.files ≡ some (link (target_text (clean_path_part version))))
        × ((q : NodePath)
            → find (version_dir s name version ++ q) d'.files
              ≡ find (version_dir s name version ++ q) d.files)
  delete_version_keeps_active proper proper' there h =
      let apart =
        sym (
          ap (λ v. v == clean_path_part id)
            (version_of-text (clean_path_part version) (clean_path_part-IsName version) proper'))
        ∙ delete_version_never_active e s name id d h there in
      (
        Spares-Returns _ d (entry-Spares s name id proper e "current" refl) h ∙ there,
        λ q. Spares-Returns _ d (version-Spares s name id proper e version q proper' apart) h,
      )

  -- Take a model with a rollback record that decodes to an activation whose previous target is
  -- `versions/` and the cleaned name of a version, and a version to delete; neither cleaned name is
  -- `..`. When `DeleteVersion` returns without an error, the record is as it was, and so is all that
  -- stands in the folder of the version that it leads back to.
  pub delete_version_keeps_rollback :
      {bytes : Bytes} {activation : Activation}
      → (clean_path_part id == "..") ≡ false
      → (clean_path_part version == "..") ≡ false
      → find (rollback_path s name) d.files ≡ some (file bytes)
      → e.activations.decode bytes ≡ some activation
      → activation.previous_target ≡ target_text (clean_path_part version)
      → Returns (delete_version e s name id) d r d'
      → (find (rollback_path s name) d'.files ≡ some (file bytes))
        × ((q : NodePath)
            → find (version_dir s name version ++ q) d'.files
              ≡ find (version_dir s name version ++ q) d.files)
  delete_version_keeps_rollback proper proper' there means back h =
      let apart =
        sym (
          ap (λ v. v == clean_path_part id)
            (ap version_or_empty back
              ∙ version_or_empty-text (clean_path_part version) (clean_path_part-IsName version)
                  proper'))
        ∙ delete_version_never_rollback e s name id d h there means in
      (
        Spares-Returns _ d (entry-Spares s name id proper e "rollback.json" refl) h ∙ there,
        λ q. Spares-Returns _ d (version-Spares s name id proper e version q proper' apart) h,
      )

-- Take a model with a `current` link, and a model to delete, the same or another; neither cleaned name
-- is `..`. When `DeleteModel` returns without an error, all that stands in the folder of the model with
-- the link is as it was.
pub delete_model_keeps_active :
    (e : Encodings) (s : ModelStore) (name other : String) (d : Disk) {r : DeleteResult} {d' : Disk}
    {target : String}
    → (clean_path_part name == "..") ≡ false
    → (clean_path_part other == "..") ≡ false
    → find (current_dir s other) d.files ≡ some (link target)
    → Returns (delete_model s name) d r d'
    → (q : NodePath)
    → find (model_dir s other ++ q) d'.files ≡ find (model_dir s other ++ q) d.files
delete_model_keeps_active e s name other d {target = target} proper proper' there h q =
    elim (Bool-cases (clean_path_part name == clean_path_part other)) [
      | inl same ↦
          let dirs : model_dir s name ≡ model_dir s other =
            sym (model_dir_idem s name)
            ∙ ap (model_dir s) ((eq_iff (clean_path_part name) (clean_path_part other)).0 same)
            ∙ model_dir_idem s other in
          elim (delete_model_never_active s name d h target
            (ap (λ p. find (p ++ ("current" ∷ [])) d.files) dirs ∙ there)) [ ]
      | inr apart ↦
          let request : InstallRequest = record {
            model_name = name;
            version_id = "";
            source_path = "";
            sha256 = "";
            catalog_id = "";
            activate = false;
          } in
          Spares-Returns _ d (models_isolated e s 0 request "" other q proper proper' apart).4 h
    ]
