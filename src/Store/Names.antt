-- ===== src/Store/Names.antt =====
-- internal/storage/models.go: what `cleanPathPart` makes of any text, and where `filepath.Join` then
-- leads.
use Prim.Native.Char.{Char}
use yllmd.Base.{
  Bool, true, false, not, ◌&&◌, ◌||◌, String, List, [], ◌∷◌, ◌≡◌, refl, ap, ◌∙◌, arith, ◌==◌,
  string_eq, if◌then◌else◌, All, inl, inr, ◌⊎◌,
}
use yllmd.Base.FilePath.{
  is_slash, is_rooted, segments, onto_first, up, keep_segment, keep_segments, last_nonempty, clean,
  base,
}
use text.Mathlib.TextEquality.{eq_iff}
use yllmd.Store.Layout.{trim_slashes_left, trim_slashes_right, clean_path_part}

unfoldable pub slash_free : String → Bool
slash_free String.[] = true
slash_free (String.◌∷◌ c s) = not (is_slash c) && slash_free s

-- A name that a folder may hold, `..` among them.
abbrev pub IsName : String → Type 0
IsName s = (slash_free s ≡ true) × ((s == "") ≡ false) × ((s == ".") ≡ false)

abbrev SlashFree : String → Type 0
SlashFree s = slash_free s ≡ true

-- A conditional has what both branches have, each under its test.
if-has :
    {A : Type 0} (P : A → Type 0) (b : Bool) {x y : A}
    → (b ≡ true → P x)
    → (b ≡ false → P y)
    → P (if b then x else y)
if-has P true px py = px refl
if-has P false px py = py refl

onto_first-SlashFree :
    (c : Char) (ss : List String)
    → is_slash c ≡ false
    → All SlashFree ss
    → All SlashFree (onto_first c ss)
unfolding onto_first slash_free
onto_first-SlashFree c [] h hs = (ground arith, tt)
onto_first-SlashFree c (s ∷ ss) h hs = (ground arith, hs.1)

segments-SlashFree : (s : String) → All SlashFree (segments s)
unfolding segments slash_free
segments-SlashFree String.[] = (refl, tt)
segments-SlashFree (String.◌∷◌ c s) =
    let rest = segments-SlashFree s in
    if-has (All SlashFree) (is_slash c) {x = "" ∷ segments s} {y = onto_first c (segments s)}
      (λ h. (refl, rest)) (λ h. onto_first-SlashFree c (segments s) h rest)

pub segments-of_name : (s : String) → SlashFree s → segments s ≡ s ∷ []
unfolding segments slash_free onto_first
segments-of_name String.[] h = refl
segments-of_name (String.◌∷◌ c s) h = ground (arith, segments-of_name s)

last_nonempty-SlashFree :
    (found : String) (ss : List String)
    → SlashFree found
    → All SlashFree ss
    → SlashFree (last_nonempty found ss)
unfolding last_nonempty
last_nonempty-SlashFree found [] h hs = h
last_nonempty-SlashFree found (s ∷ ss) h hs =
    ground (arith, last_nonempty-SlashFree found ss h hs.1, last_nonempty-SlashFree s ss hs.0 hs.1)

trim_slashes_left-of_name : (s : String) → SlashFree s → trim_slashes_left s ≡ s
unfolding trim_slashes_left slash_free
trim_slashes_left-of_name String.[] h = refl
trim_slashes_left-of_name (String.◌∷◌ c s) h = ground arith

trim_slashes_right-of_name : (s : String) → SlashFree s → trim_slashes_right s ≡ s
unfolding trim_slashes_right slash_free
trim_slashes_right-of_name String.[] h = refl
trim_slashes_right-of_name (String.◌∷◌ c s) h = ground (arith, trim_slashes_right-of_name s)

-- The last element of a path is a name, unless the path has slashes alone.
base-of_any : (s : String) → SlashFree (base s) ⊎ (base s ≡ "/")
unfolding base slash_free
base-of_any s =
    let last = last_nonempty "" (segments s) in
    let all = last_nonempty-SlashFree "" (segments s) refl (segments-SlashFree s) in
    let P : String → Type 0 = λ t. SlashFree t ⊎ (t ≡ "/") in
    if-has P (s == "") {x = "."} {y = if last == "" then "/" else last} (λ h. inl refl)
      (λ h. if-has P (last == "") {x = "/"} {y = last} (λ e. inr refl) (λ e. inl all))

trimmed : String → String
trimmed s = trim_slashes_right (trim_slashes_left s)

trimmed-of_name : (s : String) → SlashFree s → trimmed s ≡ s
unfolding trimmed
trimmed-of_name s h =
    ap trim_slashes_right (trim_slashes_left-of_name s h) ∙ trim_slashes_right-of_name s h

trimmed-SlashFree : (s : String) → SlashFree s ⊎ (s ≡ "/") → SlashFree (trimmed s)
unfolding trimmed trim_slashes_left trim_slashes_right slash_free
trimmed-SlashFree s (inl h) = ap slash_free (trimmed-of_name s h) ∙ h
trimmed-SlashFree s (inr h) = ap (λ t. slash_free (trimmed t)) h ∙ refl

-- Whatever the text, the part of a path that is made of it has no slash, is not empty and is not `.`.
-- It may be `..`.
pub clean_path_part-IsName : (value : String) → IsName (clean_path_part value)
unfolding clean_path_part trimmed
clean_path_part-IsName value =
    let t = trimmed (base (clean value)) in
    if-has IsName ((t == ".") || (t == "")) {x = "unnamed"} {y = t}
      (λ h. unfold slash_free in (refl, refl, refl))
      (λ h. (
        trimmed-SlashFree (base (clean value)) (base-of_any (clean value)),
        ground arith,
        ground arith,
      ))

is_rooted-of_name : (s : String) → SlashFree s → is_rooted s ≡ false
unfolding is_rooted slash_free
is_rooted-of_name String.[] h = refl
is_rooted-of_name (String.◌∷◌ c s) h = ground arith

pub clean-of_name : (s : String) → IsName s → clean s ≡ s
unfolding clean is_rooted keep_segments keep_segment up
clean-of_name s h =
    let one = segments-of_name s h.0 in
    let kept : keep_segments false [] (segments s) ≡ s ∷ [] =
      ap (keep_segments false []) one ∙ ground (arith, eq_iff s "..") in
    let unrooted : is_rooted s ≡ false = is_rooted-of_name s h.0 in
    rw (unrooted, kept) (ground arith)

pub base-of_name : (s : String) → IsName s → base s ≡ s
unfolding base last_nonempty
base-of_name s h = grind (arith, segments-of_name s h.0, eq_iff s "")

pub clean_path_part-of_name : (s : String) → IsName s → clean_path_part s ≡ s
unfolding clean_path_part trimmed
clean_path_part-of_name s h =
    let same : trimmed (base (clean s)) ≡ s =
      ap (λ t. trimmed (base t)) (clean-of_name s h)
      ∙ ap trimmed (base-of_name s h)
      ∙ trimmed-of_name s h.0 in
    rw same (ground arith)

pub clean_path_part_idem :
    (value : String) → clean_path_part (clean_path_part value) ≡ clean_path_part value
clean_path_part_idem value =
    clean_path_part-of_name (clean_path_part value) (clean_path_part-IsName value)
