-- ===== src/Store/Guards.antt =====
-- internal/storage/models.go: what `DeleteVersion` and `DeleteModel` refuse to delete.
use yllmd.Base.{
  true, false, String, some, [], ◌∷◌, ◌++◌, Result, ok, err, ◌≡◌, ◌≢◌, ap, sym, ◌∙◌, ◌⊎◌, inl, inr,
  ◌==◌, string_eq,
}
use yllmd.Wire.Bytes.{Bytes}
use yllmd.Disk.Paths.{NodePath}
use yllmd.Disk.Actions.{file, link, IoError, failed, Disk, pure, raise, ◌>>=◌}
use yllmd.Disk.{find, target_of, bytes_of, read_link}
use yllmd.Disk.Spares.{Spares-refuse, Spares-try}
use yllmd.Disk.Returned.{Returns, bind-Returns, failed-Returns}
use yllmd.Disk.Outcomes.{
  refuse-Returns, try-Returns, read_link-outcome, read_file-outcome, map-ok, map-err, bind-ok,
  lift-ok, lift-err, Spares-Returns,
}
use mathlib.Core.Path.{subst}
use yllmd.Store.{ModelStore, Activation, DeleteResult, StoreError, Codec, Encodings}
use yllmd.Store.Files.{read_json, decoded}
use yllmd.Store.Layout.{clean_path_part, model_dir, current_dir, version_dir, rollback_path}
use yllmd.Store.Activating.{version_of, version_or_empty, active_version, rollback_target}
use yllmd.Store.Deleting.{
  refuse_active, refuse_rollback, must_be_inactive, delete_version, delete_model,
}
use yllmd.Store.Spared.{require_dir-Spares, active_version-Spares, refuse_active-Spares}
use yllmd.Store.Places.{model_dir_idem}

-- Reading the active version reads the link, or fails.
active_version-outcome :
    (s : ModelStore) (name : String) (d : Disk) {target : String}
    → find (current_dir s name) d.files ≡ some (link target)
    → ((active_version s name d).0 ≡ ok (version_of target))
      ⊎ ((active_version s name d).0 ≡ err failed)
unfolding active_version ◌>>=◌ pure
active_version-outcome s name d there = elim (read_link-outcome (current_dir s name) d) [
  | inl looked ↦
      inl (map-ok version_of (read_link (current_dir s name)) d (looked ∙ ap target_of there))
  | inr broke ↦ inr (map-err _ (read_link (current_dir s name)) d broke)
]

refuse_active-Returns :
    (id : String) (r : Result IoError String) (d : Disk) {d' : Disk} {active : String}
    → (r ≡ ok active) ⊎ (r ≡ err failed)
    → Returns (refuse_active id r) d tt d'
    → (active == id) ≡ false
refuse_active-Returns id r d {d' = d'} {active = active} (inl same) h =
    (refuse-Returns (active == id) _ d (subst (λ x. Returns (refuse_active id x) d tt d') same h)).0
refuse_active-Returns id r d {d' = d'} (inr broke) h =
    let still =
      (refuse-Returns true _ d (subst (λ x. Returns (refuse_active id x) d tt d') broke h)).0 in
    cc

pub moved :
    {E A : Type 0} {r r' : Result E A} {a : A} {e : E}
    → r ≡ r'
    → (r ≡ ok a) ⊎ (r ≡ err e)
    → (r' ≡ ok a) ⊎ (r' ≡ err e)
moved same (inl h) = inl (sym same ∙ h)
moved same (inr h) = inr (sym same ∙ h)

-- When `DeleteVersion` returns without an error, with faults or not, the version was not the one
-- that the model's `current` link named before.
pub delete_version_never_active :
    (e : Encodings) (s : ModelStore) (name id : String) (d : Disk) {r : DeleteResult} {d' : Disk}
    {target : String}
    → Returns (delete_version e s name id) d r d'
    → find (current_dir s name) d.files ≡ some (link target)
    → (version_of target == clean_path_part id) ≡ false
unfolding delete_version
delete_version_never_active e s name id d h there =
    let n = clean_path_part name in
    let q = current_dir s n in
    let (_, d1, guard, h1) = bind-Returns _ _ d h in
    let (_, d2, checked, h2) = bind-Returns _ _ d1 h1 in
    let (active, d3, read, h3) = bind-Returns _ _ d2 h2 in
    let (_, d4, refused, h4) = bind-Returns _ _ d3 h3 in
    let kept : find q d2.files ≡ find q d.files =
      Spares-Returns _ d1 (require_dir-Spares q (version_dir s n (clean_path_part id))) checked
      ∙ Spares-Returns _ d (Spares-refuse _ _) guard in
    let same : find q d.files ≡ find (current_dir s name) d.files =
      ap (λ p. find (p ++ ("current" ∷ [])) d.files) (model_dir_idem s name) in
    let seen = active_version-outcome s n d2 (kept ∙ same ∙ there) in
    let got = (try-Returns (active_version s n) d2 read).0 in
    refuse_active-Returns (clean_path_part id) active d3 (moved got seen) refused

-- Reading a record that decodes gives it, or fails.
pub read_json-outcome :
    {A : Type 0} (c : Codec A) (p : NodePath) (d : Disk) {bytes : Bytes} {a : A}
    → find p d.files ≡ some (file bytes)
    → c.decode bytes ≡ some a
    → ((read_json c p d).0 ≡ ok a) ⊎ ((read_json c p d).0 ≡ err (StoreError.io failed))
unfolding read_json pure
read_json-outcome c p d there means = elim (read_file-outcome p d) [
  | inl looked ↦ inl (
      bind-ok _ _ d (lift-ok _ _ d (looked ∙ ap bytes_of there))
        (λ d1. ap (λ o. (decoded o d1).0) means))
  | inr broke ↦ inr (map-err _ _ d (lift-err _ _ d broke))
]

-- Reading the rollback record reads it, or fails.
rollback_target-outcome :
    (e : Encodings) (s : ModelStore) (name : String) (d : Disk) {bytes : Bytes}
    {activation : Activation}
    → find (rollback_path s name) d.files ≡ some (file bytes)
    → e.activations.decode bytes ≡ some activation
    → ((rollback_target e s name d).0 ≡ ok (version_or_empty activation.previous_target))
      ⊎ ((rollback_target e s name d).0 ≡ err (StoreError.io failed))
unfolding rollback_target
rollback_target-outcome e s name d there means =
    elim (read_json-outcome e.activations (rollback_path s name) d there means) [
      | inl read ↦ inl (map-ok (λ (a : Activation). version_or_empty a.previous_target) _ d read)
      | inr broke ↦ inr (map-err _ _ d broke)
    ]

refuse_rollback-Returns :
    (id : String) (r : Result StoreError String) (d : Disk) {d' : Disk} {target : String}
    → (r ≡ ok target) ⊎ (r ≡ err (StoreError.io failed))
    → Returns (refuse_rollback id r) d tt d'
    → (target == id) ≡ false
refuse_rollback-Returns id r d {d' = d'} {target = target} (inl same) h =
    (refuse-Returns (target == id) _ d
      (subst (λ x. Returns (refuse_rollback id x) d tt d') same h)).0
refuse_rollback-Returns id r d {d' = d'} (inr broke) h =
    let still =
      (refuse-Returns true _ d (subst (λ x. Returns (refuse_rollback id x) d tt d') broke h)).0 in
    cc

-- When `DeleteVersion` returns without an error and the model had a rollback record that decodes,
-- the version was not the one that the record leads back to.
pub delete_version_never_rollback :
    (e : Encodings) (s : ModelStore) (name id : String) (d : Disk) {r : DeleteResult} {d' : Disk}
    {bytes : Bytes} {activation : Activation}
    → Returns (delete_version e s name id) d r d'
    → find (rollback_path s name) d.files ≡ some (file bytes)
    → e.activations.decode bytes ≡ some activation
    → (version_or_empty activation.previous_target == clean_path_part id) ≡ false
unfolding delete_version
delete_version_never_rollback e s name id d h there means =
    let n = clean_path_part name in
    let q = rollback_path s n in
    let (_, d1, guard, h1) = bind-Returns _ _ d h in
    let (_, d2, checked, h2) = bind-Returns _ _ d1 h1 in
    let (active, d3, read, h3) = bind-Returns _ _ d2 h2 in
    let (_, d4, refused, h4) = bind-Returns _ _ d3 h3 in
    let (target, d5, read_back, h5) = bind-Returns _ _ d4 h4 in
    let (_, d6, refused_back, h6) = bind-Returns _ _ d5 h5 in
    let kept : find q d4.files ≡ find q d.files =
      Spares-Returns _ d3 (refuse_active-Spares q (clean_path_part id) active) refused
      ∙ Spares-Returns _ d2 (Spares-try _ (active_version-Spares q s n)) read
      ∙ Spares-Returns _ d1 (require_dir-Spares q (version_dir s n (clean_path_part id))) checked
      ∙ Spares-Returns _ d (Spares-refuse _ _) guard in
    let same : find q d.files ≡ find (rollback_path s name) d.files =
      ap (λ p. find (p ++ ("rollback.json" ∷ [])) d.files) (model_dir_idem s name) in
    let seen = rollback_target-outcome e s n d4 (kept ∙ same ∙ there) means in
    let got = (try-Returns (rollback_target e s n) d4 read_back).0 in
    refuse_rollback-Returns (clean_path_part id) target d5 (moved got seen) refused_back

must_be_inactive-Returns :
    (r : Result IoError String) (d : Disk) {d' : Disk} {active : String}
    → (r ≡ ok active) ⊎ (r ≡ err failed)
    → Returns (must_be_inactive r) d tt d'
    → ⊥
unfolding raise
must_be_inactive-Returns r d {d' = d'} (inl same) h =
    failed-Returns StoreError.active_version d
      (subst (λ x. Returns (must_be_inactive x) d tt d') same h)
must_be_inactive-Returns r d {d' = d'} (inr broke) h =
    let still =
      (refuse-Returns true _ d (subst (λ x. Returns (must_be_inactive x) d tt d') broke h)).0 in
    cc

-- When `DeleteModel` returns without an error, the model had no `current` link.
pub delete_model_never_active :
    (s : ModelStore) (name : String) (d : Disk) {r : DeleteResult} {d' : Disk}
    → Returns (delete_model s name) d r d'
    → (target : String) → find (current_dir s name) d.files ≢ some (link target)
unfolding delete_model
delete_model_never_active s name d h target there =
    let n = clean_path_part name in
    let q = current_dir s n in
    let (_, d1, guard, h1) = bind-Returns _ _ d h in
    let (_, d2, checked, h2) = bind-Returns _ _ d1 h1 in
    let (active, d3, read, h3) = bind-Returns _ _ d2 h2 in
    let (_, d4, refused, h4) = bind-Returns _ _ d3 h3 in
    let kept : find q d2.files ≡ find q d.files =
      Spares-Returns _ d1 (require_dir-Spares q (model_dir s n)) checked
      ∙ Spares-Returns _ d (Spares-refuse _ _) guard in
    let same : find q d.files ≡ find (current_dir s name) d.files =
      ap (λ p. find (p ++ ("current" ∷ [])) d.files) (model_dir_idem s name) in
    let seen = active_version-outcome s n d2 (kept ∙ same ∙ there) in
    let got = (try-Returns (active_version s n) d2 read).0 in
    must_be_inactive-Returns active d3 (moved got seen) refused
