-- ===== src/Download/Sized.antt =====
-- internal/download/downloader.go: the size of the file that a download returns.
use yllmd.Base.{
  ℕ, ◌-◌, ◌^◌, Bool, true, false, String, Option, some, Result, ok, err, ltb, length, ◌≡◌, refl, ap,
  sym, ◌∙◌, arith, ◌==◌, nat_eq, string_eq, inl, inr, Bool-cases,
}
use mathlib.Core.Path.{subst}
use yllmd.Wire.Bytes.{Bytes}
use yllmd.Catalog.{Artifact}
use yllmd.Disk.Paths.{NodePath, is_under}
use yllmd.Disk.Actions.{Node, file, IoError, Disk, raise, ◌>>=◌, try}
use yllmd.Disk.{find, stat}
use yllmd.Disk.Find.{find-move_end}
use yllmd.Disk.Returned.{
  Returns, bind-Returns, lift-Returns, stat-Returns, read_file-Returns, rename-Returns,
}
use yllmd.Disk.Outcomes.{refuse-Returns, pure-Returns, if-Returns, raise-Returns}
use yllmd.Store.Files.{is_not_exist}
use yllmd.Download.Request.{Outside, DownloadError, existing_differs, validate_download-size}
use yllmd.Download.{
  node_size, verify_file, with_suffix, final_path, or_differs, existing_download, complete_download,
  fetch, resume, resume_if_missing, download, or_raise,
}
use yllmd.Download.Measured.{Measured, tried-Returns, partial_size-Measured}
use yllmd.Download.Checked.{download_verified, final_path-apart, or_differs-Returns}

-- A file of the size of the artifact.
abbrev pub HasSize : Artifact → NodePath → Disk → Type 0
HasSize a p d =
    (bytes : Bytes) × (find p d.files ≡ some (file bytes)) × (length bytes ≡ a.size_bytes)

verify_file-finds :
    (w : Outside) (p : NodePath) (sha256 : String) (d : Disk) {d' : Disk}
    → Returns (verify_file w p sha256) d tt d'
    → (bytes : Bytes) × (find p d.files ≡ some (file bytes)) × (d'.files ≡ d.files)
unfolding verify_file
verify_file-finds w p sha256 d h =
    let (bytes, d1, read, h1) = bind-Returns _ _ d h in
    let (found, same) = read_file-Returns p d (lift-Returns _ _ d read) in
    let (_, last) = refuse-Returns _ _ d1 h1 in
    (bytes, found, sym (ap (λ (x : Disk). x.files) last) ∙ same)

-- A file that is read where a size was measured has that size.
read_file-Measured :
    (w : Outside) (a : Artifact) (p : NodePath) (d : Disk) (bytes : Bytes)
    → find p d.files ≡ some (file bytes)
    → Measured w a p d
    → length bytes ≡ a.size_bytes
read_file-Measured w a p d bytes found (node, there, size) =
    let same : ◌≡◌ {A = Option Node} (some (file bytes)) (some node) = sym found ∙ there in
    let equal : file bytes ≡ node = cc in ap (node_size w) equal ∙ size

or_raise-Returns :
    {E : Type 0} (r : Result E (Unit {0})) (d : Disk) {d' : Disk}
    → Returns (or_raise r) d tt d'
    → r ≡ ok tt
or_raise-Returns (ok _) d h = refl
or_raise-Returns (err e) d h = raise-Returns e d h

module _ (w : Outside) (a : Artifact) where
  complete_download-HasSize :
      (partial final : NodePath) (d : Disk) {path : NodePath} {d' : Disk}
      → is_under final partial ≡ false
      → Measured w a partial d
      → Returns (complete_download w a partial final) d path d'
      → HasSize a final d'
  unfolding complete_download
  complete_download-HasSize partial final d apart measured h =
      let (_, d1, verified, h1) = bind-Returns _ _ d h in
      let (_, d2, renamed, h2) = bind-Returns _ _ d1 h1 in
      let (_, last) = pure-Returns _ d2 h2 in
      let (bytes, found, same) = verify_file-finds w partial a.sha256 d verified in
      (
        bytes,
        ap (λ x. find final x.files) (sym last)
            ∙ ap (find final) (rename-Returns partial final d1 (lift-Returns _ _ d1 renamed))
            ∙ find-move_end partial final d1.files apart
            ∙ ap (find partial) same
            ∙ found,
        read_file-Measured w a partial d bytes found measured,
      )

  fetch-HasSize :
      (partial final : NodePath) (offset : ℕ) (d : Disk) {path : NodePath} {d' : Disk}
      → is_under final partial ≡ false
      → Returns (fetch w a partial final offset) d path d'
      → HasSize a final d'
  unfolding fetch
  fetch-HasSize partial final offset d apart h =
      let (_, d1, _, h1) = bind-Returns _ _ d h in
      let (_, d2, _, h2) = bind-Returns _ _ d1 h1 in
      let (_, d3, _, h3) = bind-Returns _ _ d2 h2 in
      let (_, d4, _, h4) = bind-Returns _ _ d3 h3 in
      let (_, d5, _, h5) = bind-Returns _ _ d4 h4 in
      let (node, d6, seen, h6) = bind-Returns _ _ d5 h5 in
      let (_, d7, fits, h7) = bind-Returns _ _ d6 h6 in
      let (found, same) = stat-Returns partial d5 (lift-Returns _ _ d5 seen) in
      let (equal, at) = refuse-Returns _ _ d6 fits in
      let size : node_size w node ≡ a.size_bytes = ground arith in
      complete_download-HasSize partial final d7 apart
        (node, ap (λ x. find partial x.files) (sym at) ∙ ap (find partial) same ∙ found, size) h7

  resume-HasSize :
      (final : NodePath) (d : Disk) {path : NodePath} {d' : Disk}
      → is_under final (with_suffix final ".part") ≡ false
      → (a.size_bytes == 0) ≡ false
      → Returns (resume w a final) d path d'
      → HasSize a final d'
  unfolding resume
  resume-HasSize final d apart filled h =
      let partial = with_suffix final ".part" in
      let (offset, d1, measured, h1) = bind-Returns _ _ d h in
      elim (Bool-cases (offset == a.size_bytes)) [
        | inl whole ↦
            complete_download-HasSize partial final d1 apart
              (partial_size-Measured w a partial d measured whole filled)
              (if-Returns _ true (complete_download w a partial final)
                (fetch w a partial final offset) d1 whole h1)
        | inr rest ↦ fetch-HasSize partial final offset d1 apart (
            if-Returns _ false (complete_download w a partial final)
              (fetch w a partial final offset) d1 rest h1)
      ]

  existing_download-HasSize :
      (final : NodePath) (node : Node) (d : Disk) {path : NodePath} {d' : Disk}
      → find final d.files ≡ some node
      → Returns (existing_download w a final node) d path d'
      → HasSize a final d'
  unfolding existing_download
  existing_download-HasSize final node d there h =
      elim (Bool-cases (node_size w node == a.size_bytes)) [
        | inl fits ↦
            let tried =
              if-Returns _ true (try (verify_file w final a.sha256) >>= or_differs final)
                (raise existing_differs) d fits h in
            let (checked, d1, verified, h1) = bind-Returns _ _ d tried in
            let (passed, _, last) = or_differs-Returns final checked d1 h1 in
            let (bytes, found, same) =
              verify_file-finds w final a.sha256 d
                (tried-Returns (verify_file w final a.sha256) d verified passed) in
            (
              bytes,
              ap (λ x. find final x.files) (sym last) ∙ ap (find final) same ∙ found,
              read_file-Measured w a final d bytes found (node, there, ground arith),
            )
        | inr other ↦ raise-Returns existing_differs d (
            if-Returns _ false (try (verify_file w final a.sha256) >>= or_differs final)
              (raise existing_differs) d other h)
      ]

  resume_if_missing-HasSize :
      (final : NodePath) (info : Result IoError Node) (d : Disk) {path : NodePath} {d' : Disk}
      → ((node : Node) → info ≡ ok node → find final d.files ≡ some node)
      → is_under final (with_suffix final ".part") ≡ false
      → (a.size_bytes == 0) ≡ false
      → Returns (resume_if_missing w a final info) d path d'
      → HasSize a final d'
  resume_if_missing-HasSize final (ok node) d seen apart filled h =
      existing_download-HasSize final node d (seen node refl) h
  resume_if_missing-HasSize final (err e) d seen apart filled h =
      elim (Bool-cases (is_not_exist e)) [
        | inl missing ↦
            resume-HasSize final d apart filled
              (if-Returns _ true (resume w a final) (raise (DownloadError.io e)) d missing h)
        | inr broken ↦
            raise-Returns (DownloadError.io e) d
              (if-Returns _ false (resume w a final) (raise (DownloadError.io e)) d broken h)
      ]

  -- Take an artifact whose file name is neither `..` nor `/`. When a download returns a path without an
  -- error, with the file there before, with a part of it there, or with neither, the file at the path
  -- has the size of the artifact, which is at least one byte and at most 2^63 - 2.
  pub download_sized :
      (allow_http : Bool) (destination_dir : String) (d : Disk) {path : NodePath} {d' : Disk}
      → (a.filename == "..") ≡ false
      → (a.filename == "/") ≡ false
      → Returns (download w allow_http a destination_dir) d path d'
      → HasSize a path d' × (ltb 0 a.size_bytes ≡ true) × (ltb (2 ^ 63 - 2) a.size_bytes ≡ false)
  unfolding download
  download_sized allow_http destination_dir d {d' = d'} dots slash h =
      let final = final_path destination_dir a in
      let (_, d1, valid, h1) = bind-Returns _ _ d h in
      let (_, d2, _, h2) = bind-Returns _ _ d1 h1 in
      let (info, d3, tried, h3) = bind-Returns _ _ d2 h2 in
      let (filled, small) =
        validate_download-size w allow_http a destination_dir (or_raise-Returns _ d valid) in
      let apart = final_path-apart destination_dir a dots slash in
      let seen : (node : Node) → info ≡ ok node → find final d3.files ≡ some node = λ node is.
        let (found, same) = stat-Returns final d2 (tried-Returns (stat final) d2 tried is) in
        ap (find final) same ∙ found in
      let (same, _) = download_verified w a allow_http destination_dir d dots slash h in
      (
        subst (λ p. HasSize a p d') (sym same)
            (resume_if_missing-HasSize final info d3 seen apart filled h3),
        ground arith,
        small,
      )
