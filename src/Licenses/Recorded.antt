-- ===== src/Licenses/Recorded.antt =====
-- internal/storage/licenses.go: an acceptance that was recorded is found again, and one that is found was
-- recorded.
use Prim.Native.Char.{Char, code}
use mathlib.Core.Path.{subst}
use text.Mathlib.TextEquality.{eq_iff}
use text.Mathlib.TextLemmas.{nil-append, cons-append, cons≢nil, append_assoc}
use yllmd.Base.{
  ℕ, Bool, true, false, String, ◌<>◌, Option, none, some, [], ◌∷◌, ◌++◌, Result, ok, err, ◌≡◌, ◌≢◌,
  refl, ap, sym, ◌∙◌, arith, ◌==◌, nat_eq, string_eq, inl, inr, ◌⊎◌, Bool-cases, if◌then◌else◌,
}
use yllmd.Disk.Paths.{NodePath, is_under, siblings-outside}
use yllmd.Disk.Actions.{file, failed, Disk, Io, pure, raise}
use yllmd.Disk.{find, remove}
use yllmd.Disk.Find.{find-put_same, find-move_end}
use yllmd.Disk.Spares.{Spares-remove, Spares-ignore}
use yllmd.Disk.Returned.{
  read_file-Returns, Returns, bind-Returns, lift-Returns, write_file-Returns, rename-Returns,
  create_temp-Returns,
}
use yllmd.Disk.Outcomes.{if-Returns, pure-Returns, raise-Returns, try-Returns}
use yllmd.Store.{StoreError, Codec}
use yllmd.Store.Layout.{clean_path_part}
use yllmd.Store.Deleting.{is_missing}
use yllmd.Wire.Bytes.{Bytes}
use yllmd.Store.Names.{clean_path_part_idem}
use yllmd.Store.Files.{decoded, write_json, read_json}
use yllmd.Store.Guards.{read_json-outcome, moved}
use yllmd.Licenses.{
  LicenseAcceptance, LicenseStore, license_path, removing, accept, accepted, accepted_as,
  is_current, read_acceptance,
}

last_code : String → ℕ
last_code String.[] = 0
last_code (String.◌∷◌ c s) = if s == "" then code c else last_code s

cons_full : (c : Char) (s : String) → (String.◌∷◌ c s == "") ≡ false
cons_full c s = elim (Bool-cases (String.◌∷◌ c s == "")) [
  | inl same ↦ elim (cons≢nil ((eq_iff (String.◌∷◌ c s) "").0 same)) [ ]
  | inr apart ↦ apart
]

append_full : (s : String) (c : Char) (t : String) → ((s <> String.◌∷◌ c t) == "") ≡ false
append_full String.[] c t = ap (λ x. x == "") (nil-append (String.◌∷◌ c t)) ∙ cons_full c t
append_full (String.◌∷◌ b s) c t =
    ap (λ x. x == "") (cons-append b s (String.◌∷◌ c t)) ∙ cons_full b (s <> String.◌∷◌ c t)

-- A text that is not empty gives what it is appended to its last character.
last_code-append :
    (s : String) (c : Char) (t : String)
    → last_code (s <> String.◌∷◌ c t) ≡ last_code (String.◌∷◌ c t)
unfolding last_code
last_code-append String.[] c t = ap last_code (nil-append (String.◌∷◌ c t))
last_code-append (String.◌∷◌ b s) c t =
    ap last_code (cons-append b s (String.◌∷◌ c t))
    ∙ ap (λ x. if x then code b else last_code (s <> String.◌∷◌ c t)) (append_full s c t)
    ∙ last_code-append s c t

ends_differ : ◌≢◌ {A = ℕ} 110 112
ends_differ = omega arith

-- A record's name is not a temporary one.
names_apart : (a s : String) → ((a <> ".json") == (".acceptance-" <> s <> ".tmp")) ≡ false
unfolding last_code
names_apart a s = elim (Bool-cases ((a <> ".json") == (".acceptance-" <> s <> ".tmp"))) [
  | inl same ↦
      let ends : 110 ≡ 112 =
        sym (last_code-append a "." "json")
        ∙ ap last_code ((eq_iff (a <> ".json") (".acceptance-" <> s <> ".tmp")).0 same)
        ∙ ap last_code (sym (append_assoc ".acceptance-" s ".tmp"))
        ∙ last_code-append (".acceptance-" <> s) "." "tmp" in
      elim (ends_differ ends) [ ]
  | inr apart ↦ apart
]

removing-Returns :
    {A : Type 0} (q tmp : NodePath) (m : Io StoreError A) (d : Disk) {a : A} {d' : Disk}
    → is_under tmp q ≡ false
    → Returns (removing tmp m) d a d'
    → (d₁ : Disk) × Returns m d a d₁ × (find q d'.files ≡ find q d₁.files)
unfolding removing
removing-Returns q tmp m d {a = a} apart h = (
  (m d).1,
  ap (λ r. (r.0, (m d).1)) h,
  sym (ap (λ r. find q r.1.files) h)
      ∙ (Spares-ignore {F = StoreError} (remove tmp) (Spares-remove tmp apart)).at (m d).1,
)

-- What `Accept` leaves where the family's record is looked for.
accept-Returns :
    (c : Codec LicenseAcceptance) (s : LicenseStore) (now : ℕ) (family name terms version : String)
    (d : Disk) {a : LicenseAcceptance} {d' : Disk}
    → Returns (accept c s now family name terms version) d a d'
    → (find (license_path s family) d'.files ≡ some (file (c.encode a ++ (10 ∷ []))))
      × (a.license_name ≡ name)
      × (a.terms_url ≡ terms)
unfolding accept write_json
accept-Returns c s now family name terms version d {d' = d'} h =
    let f = clean_path_part family in
    let q = license_path s f in
    let (_, d1, _, h1) = bind-Returns _ _ d h in
    let (_, d2, _, h2) = bind-Returns _ _ d1 h1 in
    let (tmp, d3, made, h3) = bind-Returns _ _ d2 h2 in
    let (_, d4, placed, h4) = bind-Returns _ _ d3 h3 in
    let (same, last) = pure-Returns _ d4 h4 in
    let (t, place) =
      create_temp-Returns s.license_root ".acceptance-" ".tmp" d2 (lift-Returns _ _ d2 made) in
    let tmp_name = ".acceptance-" <> t <> ".tmp" in
    let json_name = clean_path_part f <> ".json" in
    let names = names_apart (clean_path_part f) t in
    let back : (tmp_name == json_name) ≡ false =
      ground (arith, eq_iff tmp_name json_name, eq_iff json_name tmp_name, names) in
    let apart : is_under tmp q ≡ false =
      ap (λ p. is_under p q) place
      ∙ siblings-outside s.license_root tmp_name json_name [] [] back in
    let beside : is_under q tmp ≡ false =
      ap (is_under q) place ∙ siblings-outside s.license_root json_name tmp_name [] [] names in
    let (d5, done, kept) = removing-Returns q tmp _ d3 apart placed in
    let (_, d6, wrote, renamed) = bind-Returns _ _ d3 done in
    (
      ap (λ x. find (s.license_root ++ ((x <> ".json") ∷ [])) d'.files)
            (sym (clean_path_part_idem family))
          ∙ ap (λ x. find q x.files) (sym last)
          ∙ kept
          ∙ ap (find q) (rename-Returns tmp q d6 (lift-Returns _ _ d6 renamed))
          ∙ find-move_end tmp q d6.files beside
          ∙ ap (find tmp) (write_file-Returns tmp _ d3 (lift-Returns _ _ d3 wrote))
          ∙ find-put_same tmp _ d3.files
          ∙ ap (λ x. some (file (c.encode x ++ (10 ∷ [])))) same,
      sym (ap (λ (x : LicenseAcceptance). x.license_name) same),
      sym (ap (λ (x : LicenseAcceptance). x.terms_url) same),
    )

-- The answer about a record that was read, or could not be.
accepted_as-Returns :
    (name terms : String) (r : Result StoreError LicenseAcceptance) (d : Disk)
    {a : LicenseAcceptance} {o : Bool × Option LicenseAcceptance} {d' : Disk}
    → (r ≡ ok a) ⊎ (r ≡ err (StoreError.io failed))
    → Returns (accepted_as name terms r) d o d'
    → o ≡ (is_current a name terms, some a)
accepted_as-Returns name terms r d {a = a} {o = o} {d' = d'} (inl read) h =
    sym (pure-Returns _ d (subst (λ x. Returns (accepted_as name terms x) d o d') read h)).0
accepted_as-Returns name terms r d {o = o} {d' = d'} (inr broke) h =
    raise-Returns (StoreError.io failed) d
      (subst (λ x. Returns (accepted_as name terms x) d o d') broke h)

-- A record on the disk that a licence name and terms were accepted for a family.
abbrev pub IsRecorded :
    Codec LicenseAcceptance → LicenseStore → String → String → String → Disk → Type 0
IsRecorded c s family name terms d =
    (bytes : Bytes) × (a : LicenseAcceptance) × (find (license_path s family) d.files
      ≡ some (file bytes))
    × (c.decode bytes ≡ some a)
    × (a.license_name ≡ name)
    × (a.terms_url ≡ terms)

decoded-Returns :
    {A : Type 0} (o : Option A) (d : Disk) {a : A} {d' : Disk}
    → Returns (decoded o) d a d'
    → o ≡ some a
decoded-Returns none d h = raise-Returns _ d h
decoded-Returns (some a) d h = ap some (pure-Returns a d h).0

accepted_as-current :
    (name terms : String) (r : Result StoreError LicenseAcceptance) (d : Disk)
    {o : Bool × Option LicenseAcceptance} {d' : Disk}
    → Returns (accepted_as name terms r) d o d'
    → o.0 ≡ true
    → (a : LicenseAcceptance) × (r ≡ ok a) × (is_current a name terms ≡ true)
accepted_as-current name terms (ok a) d h current_now = (
  a,
  refl,
  ap (λ (o : Bool × Option LicenseAcceptance). o.0) (pure-Returns _ d h).0 ∙ current_now,
)
accepted_as-current name terms (err e) d h current_now = elim (Bool-cases (is_missing e)) [
  | inl missing ↦
      let no = pure-Returns _ d (if-Returns _ true (pure (false, none)) (raise e) d missing h) in
      let still : false ≡ true =
        ap (λ (o : Bool × Option LicenseAcceptance). o.0) no.0 ∙ current_now in
      cc
  | inr broken ↦ raise-Returns e d (if-Returns _ false (pure (false, none)) (raise e) d broken h)
]

-- What an answer of `Accepted` that says so rests on.
pub accepted-IsRecorded :
    (c : Codec LicenseAcceptance) (s : LicenseStore) (family name terms : String) (d : Disk)
    {o : Bool × Option LicenseAcceptance} {d' : Disk}
    → Returns (accepted c s family name terms) d o d'
    → o.0 ≡ true
    → IsRecorded c s family name terms d
unfolding accepted read_acceptance read_json
accepted-IsRecorded c s family name terms d h current_now =
    let (r, d1, tried, h1) = bind-Returns _ _ d h in
    let (a, is, current) = accepted_as-current name terms r d1 h1 current_now in
    let (out, _) = try-Returns (read_json c (license_path s family)) d tried in
    let whole : Returns (read_json c (license_path s family)) d a _ =
      ap (λ o. (o, (read_json c (license_path s family) d).1)) (out ∙ is) in
    let (bytes, d2, read, h2) = bind-Returns _ _ d whole in
    (
      bytes,
      a,
      (read_file-Returns (license_path s family) d (lift-Returns _ _ d read)).0,
      decoded-Returns (c.decode bytes) d2 h2,
      ground (arith, eq_iff a.license_name name),
      ground (arith, eq_iff a.terms_url terms),
    )

-- When `Accept` returns an acceptance, and its record decodes to it, and `Accepted` for the same family,
-- licence name and terms then returns without an error, it answers that the licence is accepted, with
-- that acceptance.
pub accept_then_accepted :
    (c : Codec LicenseAcceptance) (s : LicenseStore) (now : ℕ) (family name terms version : String)
    (d d₁ : Disk) {a : LicenseAcceptance} {o : Bool × Option LicenseAcceptance} {d₂ : Disk}
    → c.decode (c.encode a ++ (10 ∷ [])) ≡ some a
    → Returns (accept c s now family name terms version) d a d₁
    → Returns (accepted c s family name terms) d₁ o d₂
    → o ≡ (true, some a)
unfolding accepted read_acceptance
accept_then_accepted c s now family name terms version d d₁ {a = a} reads recorded h =
    let (there, named, linked) = accept-Returns c s now family name terms version d recorded in
    let (r, d3, tried, h1) = bind-Returns _ _ d₁ h in
    let got = (try-Returns (read_json c (license_path s family)) d₁ tried).0 in
    let seen = moved got (read_json-outcome c (license_path s family) d₁ there reads) in
    let current : is_current a name terms ≡ true =
      ground (arith, eq_iff a.license_name name, eq_iff a.terms_url terms) in
    accepted_as-Returns name terms r d3 seen h1 ∙ ap (λ b. (b, some a)) current
