-- ===== src/Download/Measured.antt =====
-- internal/download/downloader.go: what `partialSize` measured.
use yllmd.Base.{
  ℕ, true, false, some, Result, ok, err, ltb, ◌≡◌, refl, ap, sym, ◌∙◌, arith, ◌==◌, nat_eq,
  string_eq, inl, inr, ◌⊎◌, Bool-cases,
}
use yllmd.Catalog.{Artifact}
use yllmd.Disk.Paths.{NodePath}
use yllmd.Disk.Actions.{Node, IoError, Disk, raise, pure, ◌>>◌, lift, try}
use yllmd.Disk.{find, stat, remove}
use yllmd.Disk.Returned.{Returns, bind-Returns, stat-Returns}
use yllmd.Disk.Outcomes.{try-Returns, pure-Returns, if-Returns, raise-Returns}
use yllmd.Store.Files.{is_not_exist}
use yllmd.Download.Request.{Outside, DownloadError}
use yllmd.Download.{node_size, sized, partial_size}

-- What stands at a path that `os.Stat` gave the size of.
abbrev pub Measured : Outside → Artifact → NodePath → Disk → Type 0
Measured w a p d = (node : Node) × (find p d.files ≡ some node) × (node_size w node ≡ a.size_bytes)

pub tried-Returns :
    {E A : Type 0} (m : Disk → Result E A × Disk) (d : Disk) {r : Result E A} {x : A} {d' : Disk}
    → Returns (try {E = E} {F = DownloadError} m) d r d'
    → r ≡ ok x
    → Returns m d x d'
tried-Returns m d {x = x} h is =
    let (out, at) = try-Returns m d h in ap (λ o. (o, (m d).1)) (out ∙ is) ∙ ap (λ y. (ok x, y)) at

module _ (w : Outside) (a : Artifact) where
  sized-Returns :
      (p : NodePath) (info : Result IoError Node) (d : Disk) {offset : ℕ} {d' : Disk}
      → Returns (sized w p a.size_bytes info) d offset d'
      → (offset ≡ 0) ⊎ ((node : Node) × (info ≡ ok node) × (node_size w node ≡ offset) × (d ≡ d'))
  sized-Returns p (err e) d h = elim (Bool-cases (is_not_exist e)) [
    | inl missing ↦ inl (
        sym
          (pure-Returns 0 d
            (if-Returns _ true (pure 0) (raise (DownloadError.io e)) d missing h)).0)
    | inr broken ↦
        raise-Returns (DownloadError.io e) d
          (if-Returns _ false (pure 0) (raise (DownloadError.io e)) d broken h)
  ]
  sized-Returns p (ok node) d h = elim (Bool-cases (ltb a.size_bytes (node_size w node))) [
    | inl larger ↦
        let removed =
          if-Returns _ true (lift DownloadError.io (remove p) >> pure 0) (pure (node_size w node)) d
            larger h in
        let (_, d1, _, last) = bind-Returns _ _ d removed in inl (sym (pure-Returns 0 d1 last).0)
    | inr fits ↦
        let kept =
          if-Returns _ false (lift DownloadError.io (remove p) >> pure 0) (pure (node_size w node))
            d fits h in
        let (same, at) = pure-Returns _ d kept in inr (node, refl, same, at)
  ]

  pub partial_size-Measured :
      (p : NodePath) (d : Disk) {offset : ℕ} {d' : Disk}
      → Returns (partial_size w p a.size_bytes) d offset d'
      → (offset == a.size_bytes) ≡ true
      → (a.size_bytes == 0) ≡ false
      → Measured w a p d'
  unfolding partial_size
  partial_size-Measured p d {offset = offset} h whole filled =
      let (info, d1, tried, h1) = bind-Returns _ _ d h in
      elim (sized-Returns p info d1 h1) [
        | inl nothing ↦
            let size : a.size_bytes ≡ 0 = ground arith in
            let never : true ≡ false = sym (ap (λ n. n == 0) size) ∙ filled in cc
        | inr (node, is, size, at) ↦
            let (found, same) = stat-Returns p d (tried-Returns (stat p) d tried is) in
            (
              node,
              ap (λ x. find p x.files) (sym at) ∙ ap (find p) same ∙ found,
              size ∙ ground arith,
            )
      ]
