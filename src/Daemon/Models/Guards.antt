-- ===== src/Daemon/Models/Guards.antt =====
-- internal/daemon/server.go: what the actions on models refuse, and what a deletion leaves alone.
use yllmd.Base.{
  ◌++◌, true, false, String, some, Result, ok, err, ◌≡◌, ap, sym, ◌∙◌, arith, ◌==◌, ◌!=◌, string_eq,
  inl, inr, Bool-cases,
}
use yllmd.Base.Dict.{Dict}
use yllmd.Disk.Paths.{NodePath}
use yllmd.Disk.Actions.{link, Disk, pure, raise}
use yllmd.Disk.{find}
use yllmd.Disk.Returned.{Returns, bind-Returns, lift-Returns, failed-Returns}
use yllmd.Disk.Outcomes.{refuse-Returns, if-Returns, pure-Returns}
use yllmd.Protocol.{Request}
use yllmd.Store.Layout.{clean_path_part, current_dir, version_dir, new_model_store}
use yllmd.Store.Targets.{target_text}
use yllmd.Store.Kept.{delete_version_keeps_active}
use yllmd.Store.Guards.{delete_model_never_active}
use yllmd.Daemon.Models.{
  ModelsRefusal, ModelsAnswer, ModelsServer, or_answer, delete_one_version, delete_whole_model,
  delete_model_request,
}

pub or_answer-same :
    {E A : Type 0} (code : ModelsRefusal) (r : Result E A) (d : Disk) {a : A} {d' : Disk}
    → Returns (or_answer code r) d a d'
    → d ≡ d'
unfolding pure raise
or_answer-same code (ok a) d h = ap (λ o. o.1) h
or_answer-same code (err e) d h = failed-Returns code d h

-- Take a model whose `current` link leads to `versions/` and the cleaned name of a version, and a
-- request to delete that model or a version of it; the cleaned name of neither version is `..`. When
-- it is answered without an error, the request named a version, the link is as it was, and so is all
-- that stands in the folder of the version that it leads to.
pub delete_keeps_active_version :
    (s : ModelsServer) (req : Request) (version : String) (d : Disk) {r : ModelsAnswer} {d' : Disk}
    → let store = new_model_store s.cfg in
      let active = link (target_text (clean_path_part version)) in
      (clean_path_part req.version == "..") ≡ false
      → (clean_path_part version == "..") ≡ false
      → find (current_dir store req.model) d.files ≡ some active
      → Returns (delete_model_request s req) d r d'
      → ((req.version == "") ≡ false)
        × (find (current_dir store req.model) d'.files ≡ some active)
        × ((q : NodePath)
            → find (version_dir store req.model version ++ q) d'.files
              ≡ find (version_dir store req.model version ++ q) d.files)
unfolding delete_model_request delete_whole_model delete_one_version
delete_keeps_active_version s req version d {d' = d'} proper proper' there h =
    let store = new_model_store s.cfg in
    let current = current_dir store req.model in
    let (_, d1, valid, h1) = bind-Returns _ _ d h in
    let same = or_answer-same _ _ d valid in
    let there' = ap (λ x. find current x.files) (sym same) ∙ there in
    elim (Bool-cases (req.version != "")) [
      | inl given ↦
          let one =
            if-Returns _ true (delete_one_version s req) (delete_whole_model s req) d1 given h1 in
          let (_, d2, done, h2) = bind-Returns _ _ d1 one in
          let (_, last) = pure-Returns _ d2 h2 in
          let (kept, folder) =
            delete_version_keeps_active s.encodings store req.model req.version version d1 proper
              proper' there' (lift-Returns _ _ d1 done) in
          (
            ground (arith, given),
            ap (λ x. find current x.files) (sym last) ∙ kept,
            λ q.
                let at = version_dir store req.model version ++ q in
                ap (λ x. find at x.files) (sym last)
                ∙ folder q
                ∙ ap (λ x. find at x.files) (sym same),
          )
      | inr whole ↦
          let all =
            if-Returns _ false (delete_one_version s req) (delete_whole_model s req) d1 whole h1 in
          let (_, d2, passed, h2) = bind-Returns _ _ d1 all in
          let still = (refuse-Returns _ _ d1 passed).1 in
          let (_, d3, done, _) = bind-Returns _ _ d2 h2 in
          elim (delete_model_never_active store req.model d2 (lift-Returns _ _ d2 done)
            (target_text (clean_path_part version))
            (ap (λ x. find current x.files) (sym still) ∙ there')) [ ]
    ]
