-- ===== src/Download/Checked.antt =====
-- internal/download/downloader.go: the file that a download returns.
use yllmd.Base.{
  ℕ, ◌+◌, Bool, true, false, String, ◌<>◌, some, [], ◌∷◌, ◌++◌, Result, ok, err, ◌≡◌, ◌≢◌, refl, ap,
  sym, ◌∙◌, arith, ◌==◌, nat_eq, string_eq, inl, inr, Bool-cases, if◌then◌else◌,
}
use mathlib.Core.Path.{subst}
use text.Mathlib.TextEquality.{eq_iff}
use text.Mathlib.TextLemmas.{length-append}
use yllmd.Base.Text.{trim_space, to_lower}
use Prim.Native.String.{count}
use yllmd.Store.Layout.{components, under}
use yllmd.Wire.Bytes.{Bytes}
use yllmd.Catalog.{Artifact}
use yllmd.Disk.Paths.{NodePath, parent, is_under, strip}
use yllmd.Disk.Actions.{Node, file, IoError, Disk, raise, ◌>>=◌, try}
use yllmd.Disk.{find}
use yllmd.Disk.Find.{find-move_end}
use yllmd.Disk.Returned.{
  Returns, bind-Returns, lift-Returns, failed-Returns, read_file-Returns, rename-Returns,
}
use yllmd.Disk.Outcomes.{refuse-Returns, try-Returns, pure-Returns, if-Returns, raise-Returns}
use yllmd.Store.Files.{is_not_exist}
use yllmd.Download.Request.{Outside, DownloadError, existing_differs}
use yllmd.Download.{
  node_size, verify_file, with_suffix, final_path, or_differs, existing_download, complete_download,
  fetch, resume, resume_if_missing, download,
}

grows : (n : ℕ) → n ≢ n + 5
grows n = omega arith

longer : (a : String) → (a == (a <> ".part")) ≡ false
longer a = elim (Bool-cases (a == (a <> ".part"))) [
  | inl same ↦
      let sizes : count a ≡ count a + 5 =
        ap count ((eq_iff a (a <> ".part")).0 same) ∙ length-append a ".part" in
      elim (grows (count a) sizes) [ ]
  | inr apart ↦ apart
]

with_suffix-outside :
    (a : String) (p : NodePath) → is_under (a ∷ p) (with_suffix (a ∷ p) ".part") ≡ false
unfolding with_suffix strip
with_suffix-outside a [] = ground (arith, longer a)
with_suffix-outside a (b ∷ p) = ground (arith, eq_iff a a, with_suffix-outside b p)

entry-apart :
    (dir : NodePath) (name : String)
    → is_under (dir ++ (name ∷ [])) (with_suffix (dir ++ (name ∷ [])) ".part") ≡ false
entry-apart [] name = with_suffix-outside name []
entry-apart (b ∷ dir) name = with_suffix-outside b (dir ++ (name ∷ []))

-- A file with the checksum of the artifact.
abbrev pub Matches : Outside → Artifact → NodePath → Disk → Type 0
Matches w a p d =
    (bytes : Bytes) × (find p d.files ≡ some (file bytes))
    × (to_lower (w.sha256_hex bytes) ≡ to_lower (trim_space a.sha256))

pub final_path-apart :
    (destination_dir : String) (a : Artifact)
    → (a.filename == "..") ≡ false
    → (a.filename == "/") ≡ false
    → is_under (final_path destination_dir a) (with_suffix (final_path destination_dir a) ".part")
      ≡ false
final_path-apart destination_dir a dots slash =
    let dir = components destination_dir in
    let at : final_path destination_dir a ≡ dir ++ (a.filename ∷ []) =
      ap (λ b. if b then dir else under dir a.filename) slash
      ∙ ap (λ b. if b then parent dir else dir ++ (a.filename ∷ [])) dots in
    ap (λ p. is_under p (with_suffix p ".part")) at ∙ entry-apart dir a.filename

pub or_differs-Returns :
    (final : NodePath) (r : Result DownloadError (Unit {0})) (d : Disk) {path : NodePath}
    {d' : Disk}
    → Returns (or_differs final r) d path d'
    → (r ≡ ok tt) × (path ≡ final) × (d ≡ d')
unfolding raise
or_differs-Returns final (ok _) d h =
    let (same, last) = pure-Returns final d h in (refl, sym same, last)
or_differs-Returns final (err e) d h = failed-Returns existing_differs d h

module _ (w : Outside) (a : Artifact) where
  verify_file-Returns :
      (p : NodePath) (d : Disk) {d' : Disk}
      → Returns (verify_file w p a.sha256) d tt d'
      → Matches w a p d'
  unfolding verify_file
  verify_file-Returns p d h =
      let (bytes, d1, read, h1) = bind-Returns _ _ d h in
      let (found, same) = read_file-Returns p d (lift-Returns _ _ d read) in
      let (equal, last) = refuse-Returns _ _ d1 h1 in
      (
        bytes,
        ap (λ x. find p x.files) (sym last) ∙ ap (find p) same ∙ found,
        ground (arith, eq_iff (to_lower (w.sha256_hex bytes)) (to_lower (trim_space a.sha256))),
      )

  complete_download-Returns :
      (partial final : NodePath) (d : Disk) {path : NodePath} {d' : Disk}
      → is_under final partial ≡ false
      → Returns (complete_download w a partial final) d path d'
      → (path ≡ final) × Matches w a final d'
  unfolding complete_download
  complete_download-Returns partial final d apart h =
      let (_, d1, verified, h1) = bind-Returns _ _ d h in
      let (_, d2, renamed, h2) = bind-Returns _ _ d1 h1 in
      let (same, last) = pure-Returns _ d2 h2 in
      let (bytes, found, equal) = verify_file-Returns partial d verified in
      (
        sym same,
        (
          bytes,
          ap (λ x. find final x.files) (sym last)
              ∙ ap (find final) (rename-Returns partial final d1 (lift-Returns _ _ d1 renamed))
              ∙ find-move_end partial final d1.files apart
              ∙ found,
          equal,
        ),
      )

  fetch-Returns :
      (partial final : NodePath) (offset : ℕ) (d : Disk) {path : NodePath} {d' : Disk}
      → is_under final partial ≡ false
      → Returns (fetch w a partial final offset) d path d'
      → (path ≡ final) × Matches w a final d'
  unfolding fetch
  fetch-Returns partial final offset d apart h =
      let (_, d1, _, h1) = bind-Returns _ _ d h in
      let (_, d2, _, h2) = bind-Returns _ _ d1 h1 in
      let (_, d3, _, h3) = bind-Returns _ _ d2 h2 in
      let (_, d4, _, h4) = bind-Returns _ _ d3 h3 in
      let (_, d5, _, h5) = bind-Returns _ _ d4 h4 in
      let (_, d6, _, h6) = bind-Returns _ _ d5 h5 in
      let (_, d7, _, h7) = bind-Returns _ _ d6 h6 in
      complete_download-Returns partial final d7 apart h7

  resume-Returns :
      (final : NodePath) (d : Disk) {path : NodePath} {d' : Disk}
      → is_under final (with_suffix final ".part") ≡ false
      → Returns (resume w a final) d path d'
      → (path ≡ final) × Matches w a final d'
  unfolding resume
  resume-Returns final d apart h =
      let partial = with_suffix final ".part" in
      let (offset, d1, _, h1) = bind-Returns _ _ d h in
      elim (Bool-cases (offset == a.size_bytes)) [
        | inl whole ↦ complete_download-Returns partial final d1 apart (
            if-Returns _ true (complete_download w a partial final) (fetch w a partial final offset)
              d1 whole h1)
        | inr rest ↦ fetch-Returns partial final offset d1 apart (
            if-Returns _ false (complete_download w a partial final)
              (fetch w a partial final offset) d1 rest h1)
      ]

  existing_download-Returns :
      (final : NodePath) (node : Node) (d : Disk) {path : NodePath} {d' : Disk}
      → Returns (existing_download w a final node) d path d'
      → (path ≡ final) × Matches w a final d'
  unfolding existing_download
  existing_download-Returns final node d h = elim (Bool-cases (node_size w node == a.size_bytes)) [
    | inl sized ↦
        let tried =
          if-Returns _ true (try (verify_file w final a.sha256) >>= or_differs final)
            (raise existing_differs) d sized h in
        let (checked, d1, verified, h1) = bind-Returns _ _ d tried in
        let (out, at) = try-Returns (verify_file w final a.sha256) d verified in
        let (passed, same, last) = or_differs-Returns final checked d1 h1 in
        let returned : Returns (verify_file w final a.sha256) d tt _ =
          ap (λ o. (o, (verify_file w final a.sha256 d).1)) (out ∙ passed)
          ∙ ap (λ x. (ok tt, x)) (at ∙ last) in
        (same, verify_file-Returns final d returned)
    | inr other ↦ raise-Returns existing_differs d (
        if-Returns _ false (try (verify_file w final a.sha256) >>= or_differs final)
          (raise existing_differs) d other h)
  ]

  resume_if_missing-Returns :
      (final : NodePath) (info : Result IoError Node) (d : Disk) {path : NodePath} {d' : Disk}
      → is_under final (with_suffix final ".part") ≡ false
      → Returns (resume_if_missing w a final info) d path d'
      → (path ≡ final) × Matches w a final d'
  resume_if_missing-Returns final (ok node) d apart h = existing_download-Returns final node d h
  resume_if_missing-Returns final (err e) d apart h = elim (Bool-cases (is_not_exist e)) [
    | inl missing ↦
        resume-Returns final d apart
          (if-Returns _ true (resume w a final) (raise (DownloadError.io e)) d missing h)
    | inr broken ↦
        raise-Returns (DownloadError.io e) d
          (if-Returns _ false (resume w a final) (raise (DownloadError.io e)) d broken h)
  ]

  -- Take an artifact whose file name is neither `..` nor `/`. When a download returns a path
  -- without an error, with the file there before, with a part of it there, or with neither, the
  -- path is that of the file name in the destination, and the file there has the artifact's
  -- SHA-256.
  pub download_verified :
      (allow_http : Bool) (destination_dir : String) (d : Disk) {path : NodePath} {d' : Disk}
      → (a.filename == "..") ≡ false
      → (a.filename == "/") ≡ false
      → Returns (download w allow_http a destination_dir) d path d'
      → (path ≡ final_path destination_dir a) × Matches w a path d'
  unfolding download
  download_verified allow_http destination_dir d {d' = d'} dots slash h =
      let final = final_path destination_dir a in
      let (_, d1, _, h1) = bind-Returns _ _ d h in
      let (_, d2, _, h2) = bind-Returns _ _ d1 h1 in
      let (info, d3, _, h3) = bind-Returns _ _ d2 h2 in
      let (same, good) =
        resume_if_missing-Returns final info d3 (final_path-apart destination_dir a dots slash)
          h3 in
      (same, subst (λ p. Matches w a p d') (sym same) good)
