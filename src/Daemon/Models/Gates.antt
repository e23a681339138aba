-- ===== src/Daemon/Models/Gates.antt =====
-- internal/daemon/server.go: what `installCatalogArtifact` asks of an artifact before it installs it.
use yllmd.Base.{
  Bool, true, false, not, ◌&&◌, Option, none, some, ◌≡◌, refl, ap, sym, ◌∙◌, arith, ◌==◌, string_eq,
}
use mathlib.Core.Path.{subst}
use yllmd.Catalog.{Family, Variant, Artifact, variant}
use yllmd.Disk.Actions.{Disk, pure}
use yllmd.Disk.Returned.{Returns, bind-Returns, lift-Returns}
use yllmd.Disk.Outcomes.{pure-Returns, raise-Returns, refuse-Returns, if-Returns}
use yllmd.Licenses.{new_license_store}
use yllmd.Licenses.Recorded.{IsRecorded, accepted-IsRecorded}
use yllmd.Protocol.{Request}
use yllmd.Daemon.Models.{model_unavailable, model_not_qualified, ModelsAnswer}
use yllmd.Daemon.Models.Guards.{or_answer-same}
use yllmd.Daemon.Models.Artifacts.{
  ArtifactServer, known, qualified, require_license, install_catalog_artifact,
}

the_same : (p q : Family × Variant) → some p ≡ some q → p ≡ q
the_same p q h = cc

known-Returns :
    (o : Option (Family × Variant)) (d : Disk) {found : Family × Variant} {d' : Disk}
    → Returns (known o) d found d'
    → (o ≡ some found) × (d ≡ d')
known-Returns none d h = raise-Returns model_unavailable d h
known-Returns (some found) d h = let (same, last) = pure-Returns found d h in (ap some same, last)

qualified-Returns :
    (b : Bool) (o : Option Artifact) (d : Disk) {a : Artifact} {d' : Disk}
    → Returns (qualified b o) d a d'
    → (b ≡ true) × (o ≡ some a) × (d ≡ d')
qualified-Returns true (some a) d h =
    let (same, last) = pure-Returns a d h in (refl, ap some same, last)
qualified-Returns true none d h = raise-Returns model_not_qualified d h
qualified-Returns false o d h = raise-Returns model_not_qualified d h

require_license-Returns :
    (s : ArtifactServer) (family : Family) (req : Request) (d : Disk) {d' : Disk}
    → req.license_accepted ≡ false
    → Returns (require_license s family req) d tt d'
    → IsRecorded s.acceptances
        (new_license_store s.base.cfg)
        family.id
        family.license.name
        family.license.terms_url
        d
unfolding require_license
require_license-Returns s family req d refused h =
    let (answer, d1, checked, h1) = bind-Returns _ _ d h in
    let (_, d2, passed, _) = bind-Returns _ _ d1 h1 in
    let now = lift-Returns _ _ d checked in
    let current : answer.0 ≡ true =
      ground (arith, (refuse-Returns (not answer.0 && not req.license_accepted) _ d1 passed).0) in
    accepted-IsRecorded s.acceptances _ family.id family.license.name family.license.terms_url d now
      current

-- What stands before the licence: the variant that was asked for, with its artifact.
module _ (s : ArtifactServer) (update : Bool) (req : Request) (d : Disk) {r : ModelsAnswer}
    {d' : Disk} (family : Family) (v : Variant) where
  -- When an install or update of a variant of the catalogue is answered without an error, the variant is
  -- available and has an artifact.
  pub installs_qualified_artifact :
      variant s.catalog req.model ≡ some (family, v)
      → Returns (install_catalog_artifact s update req) d r d'
      → ((v.status == "available") ≡ true) × ((a : Artifact) × (v.artifact ≡ some a))
  unfolding install_catalog_artifact
  installs_qualified_artifact found h =
      let (_, d1, valid, h1) = bind-Returns _ _ d h in
      let (pair, d2, looked, h2) = bind-Returns _ _ d1 h1 in
      let (a, d3, fit, h3) = bind-Returns _ _ d2 h2 in
      let (is, _) = known-Returns _ d1 looked in
      let same : pair ≡ (family, v) = the_same pair (family, v) (sym is ∙ found) in
      let (available, artifact, _) = qualified-Returns _ _ d2 fit in
      (
        ap (λ (p : Family × Variant). p.1.status == "available") (sym same) ∙ available,
        (a, ap (λ (p : Family × Variant). p.1.artifact) (sym same) ∙ artifact),
      )

  -- Take a variant whose family's licence wants an acceptance, and a request that brings none. When an
  -- install or update is answered without an error, the disk held before, at the path of the family, a
  -- record that decodes to an acceptance of the licence's name and terms.
  pub installs_licensed_artifact :
      variant s.catalog req.model ≡ some (family, v)
      → family.license.acceptance_required ≡ true
      → req.license_accepted ≡ false
      → Returns (install_catalog_artifact s update req) d r d'
      → IsRecorded s.acceptances
          (new_license_store s.base.cfg)
          family.id
          family.license.name
          family.license.terms_url
          d
  unfolding install_catalog_artifact
  installs_licensed_artifact found wanted refused h =
      let (_, d1, valid, h1) = bind-Returns _ _ d h in
      let (pair, d2, looked, h2) = bind-Returns _ _ d1 h1 in
      let (a, d3, fit, h3) = bind-Returns _ _ d2 h2 in
      let (_, d4, gate, _) = bind-Returns _ _ d3 h3 in
      let (is, at₂) = known-Returns _ d1 looked in
      let same : pair ≡ (family, v) = the_same pair (family, v) (sym is ∙ found) in
      let (_, _, at₃) = qualified-Returns _ _ d2 fit in
      let whole : d3 ≡ d = sym (or_answer-same _ _ d valid ∙ at₂ ∙ at₃) in
      let needed : pair.0.license.acceptance_required ≡ true =
        ap (λ (p : Family × Variant). p.0.license.acceptance_required) same ∙ wanted in
      let passed : Returns (require_license s pair.0 req) d3 tt d4 =
        if-Returns _ true (require_license s pair.0 req) (pure tt) d3 needed gate in
      let passed' : Returns (require_license s family req) d tt d4 =
        subst (λ x. Returns (require_license s family req) x tt d4) whole
          (subst (λ (p : Family × Variant). Returns (require_license s p.0 req) d3 tt d4) same
            passed) in
      require_license-Returns s family req d refused passed'
