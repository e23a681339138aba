-- ===== src/Store/Targets.antt =====
-- internal/storage/models.go: the version that the target of an activation's link names.
use Prim.Native.Char.{Char}
use yllmd.Base.{
  true, false, String, ◌<>◌, [], ◌∷◌, ◌≡◌, refl, ap, sym, ◌∙◌, arith, ◌==◌, string_eq,
  if◌then◌else◌, inl, inr, Bool-cases,
}
use text.Mathlib.TextEquality.{eq_iff}
use text.Mathlib.TextLemmas.{nil-append, cons-append, cons≢nil}
use yllmd.Base.FilePath.{
  is_rooted, segments, onto_first, nonempty, keep_segment, keep_segments, last_nonempty, clean,
  base, join, joined,
}
use yllmd.Store.Names.{slash_free, IsName, segments-of_name}
use yllmd.Store.Activating.{version_of, version_or_empty}

segments-append : (s t : String) → slash_free s ≡ true → segments (s <> "/" <> t) ≡ s ∷ segments t
unfolding segments onto_first slash_free
segments-append String.[] t h =
    ap segments (nil-append ("/" <> t))
    ∙ ap segments (cons-append "/" "" t)
    ∙ ap (λ x. "" ∷ segments x) (nil-append t)
segments-append (String.◌∷◌ c s) t h =
    ap segments (cons-append c s ("/" <> t)) ∙ ground (arith, segments-append s t)

cons-nonempty : (c : Char) (s t : String) → ((String.◌∷◌ c s <> t) == "") ≡ false
cons-nonempty c s t = elim (Bool-cases ((String.◌∷◌ c s <> t) == "")) [
  | inl same ↦
      let e : String.◌∷◌ c (s <> t) ≡ "" =
        sym (cons-append c s t) ∙ (eq_iff (String.◌∷◌ c s <> t) "").0 same in
      elim (cons≢nil e) [ ]
  | inr apart ↦ apart
]

-- The text of a link to a version.
abbrev pub target_text : String → String
target_text v = "versions" <> "/" <> v

module _ (v : String) (name : IsName v) (proper : (v == "..") ≡ false) where
  parts : segments (target_text v) ≡ "versions" ∷ v ∷ []
  unfolding slash_free
  parts = segments-append "versions" v refl ∙ ap (λ ss. "versions" ∷ ss) (segments-of_name v name.0)

  unrooted : is_rooted (target_text v) ≡ false
  unfolding is_rooted
  unrooted = ap is_rooted (cons-append "v" "ersions" ("/" <> v))

  clean-target : clean (target_text v) ≡ target_text v
  unfolding clean keep_segments keep_segment
  clean-target =
      let kept : keep_segments false [] (segments (target_text v)) ≡ v ∷ "versions" ∷ [] =
        ap (keep_segments false []) parts ∙ ground (arith, name, proper) in
      rw (unrooted, kept)
        (ap (λ b. if b then "." else target_text v) (cons-nonempty "v" "ersions" ("/" <> v)))

  join-target : join ("versions" ∷ v ∷ []) ≡ target_text v
  unfolding join nonempty
  join-target =
      let both : nonempty ("versions" ∷ v ∷ []) ≡ "versions" ∷ v ∷ [] = ground (arith, name) in
      ap (λ ps. elim ps [ [] ↦ "" | s ∷ ss ↦ clean (joined (s ∷ ss)) ]) both ∙ clean-target

  base-target : base (target_text v) ≡ v
  unfolding base last_nonempty
  base-target =
      let last : last_nonempty "" (segments (target_text v)) ≡ v =
        ap (last_nonempty "") parts ∙ ground (arith, name) in
      rw last (ground (arith, cons-nonempty "v" "ersions" ("/" <> v), name))

  -- The link of an activation names the version that was activated.
  pub version_of-target : version_of (join ("versions" ∷ v ∷ [])) ≡ v
  unfolding version_of
  version_of-target = ap (λ t. base (clean t)) join-target ∙ ap base clean-target ∙ base-target

  pub version_of-text : version_of (target_text v) ≡ v
  unfolding version_of
  version_of-text = ap base clean-target ∙ base-target

  pub version_or_empty-text : version_or_empty (target_text v) ≡ v
  unfolding version_or_empty
  version_or_empty-text =
      ap (λ b. if b then "" else version_of (target_text v))
        (cons-nonempty "v" "ersions" ("/" <> v))
      ∙ version_of-text
