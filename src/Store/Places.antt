-- ===== src/Store/Places.antt =====
-- internal/storage/models.go: where the folders of the store stand to each other.
use yllmd.Base.{
  Bool, true, false, nat_beq, Bool-cases, inl, inr, String, ◌<>◌, [], ◌∷◌, ◌++◌, ◌≡◌, refl, ap, ◌∙◌,
  ◌==◌, string_eq, if◌then◌else◌,
}
use Prim.Native.Char.{code}
use text.Mathlib.TextEquality.{eq_iff}
use text.Mathlib.TextLemmas.{cons-append}
use mathlib.Core.List.{append_assoc}
use yllmd.Disk.Paths.{NodePath, parent, is_under, siblings-outside}
use yllmd.Store.{ModelStore}
use yllmd.Store.Layout.{clean_path_part, model_dir, version_dir, under}
use yllmd.Store.Names.{clean_path_part_idem}

pub model_dir_idem :
    (s : ModelStore) (name : String) → model_dir s (clean_path_part name) ≡ model_dir s name
unfolding model_dir
model_dir_idem s name = ap (under s.root) (clean_path_part_idem name)

pub model_dir-of_name :
    (s : ModelStore) (name : String)
    → (clean_path_part name == "..") ≡ false
    → model_dir s name ≡ s.root ++ (clean_path_part name ∷ [])
unfolding model_dir
model_dir-of_name s name h =
    ap (λ b. if b then parent s.root else s.root ++ (clean_path_part name ∷ [])) h

pub version_dir-of_name :
    (s : ModelStore) (name id : String)
    → (clean_path_part id == "..") ≡ false
    → version_dir s name id ≡ model_dir s name ++ ("versions" ∷ clean_path_part id ∷ [])
version_dir-of_name s name id h =
    let dir = model_dir s name in
    let versions = dir ++ ("versions" ∷ []) in
    ap (λ b. if b then parent versions else versions ++ (clean_path_part id ∷ [])) h
    ∙ append_assoc dir ("versions" ∷ []) (clean_path_part id ∷ [])

begins_with_dot : String → Bool
begins_with_dot String.[] = false
begins_with_dot (String.◌∷◌ c s) = nat_beq (code c) 46

dotted-append : (s t : String) → begins_with_dot s ≡ true → begins_with_dot (s <> t) ≡ true
unfolding begins_with_dot
dotted-append String.[] t h = cc
dotted-append (String.◌∷◌ c s) t h = ap begins_with_dot (cons-append c s t) ∙ h

versions-apart : (t : String) → ("versions" == (".install-" <> t)) ≡ false
unfolding begins_with_dot
versions-apart t =
    let dotted = dotted-append ".install-" t refl in
    elim (Bool-cases ("versions" == (".install-" <> t))) [
      | inl same ↦
          let begins : begins_with_dot "versions" ≡ true =
            ap begins_with_dot ((eq_iff "versions" (".install-" <> t)).0 same) ∙ dotted in
          cc
      | inr apart ↦ apart
    ]

-- A temporary folder is no version.
pub temporary-outside :
    (s : ModelStore) (name id t : String) (tmp r : NodePath)
    → (clean_path_part id == "..") ≡ false
    → tmp ≡ model_dir s name ++ ((".install-" <> t) ∷ [])
    → is_under (version_dir s name id) (tmp ++ r) ≡ false
temporary-outside s name id t tmp r h place =
    let dir = model_dir s name in
    ap (λ p. is_under (version_dir s name id) (p ++ r)) place
    ∙ ap (is_under (version_dir s name id)) (append_assoc dir ((".install-" <> t) ∷ []) r)
    ∙ ap (λ p. is_under p (dir ++ ((".install-" <> t) ∷ r))) (version_dir-of_name s name id h)
    ∙ siblings-outside dir "versions" (".install-" <> t) (clean_path_part id ∷ []) r
        (versions-apart t)
