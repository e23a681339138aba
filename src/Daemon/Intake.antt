-- ===== src/Daemon/Intake.antt =====
-- internal/daemon/server.go: the part of `enqueueGenerate` before the queue, which validates a request
-- and fixes the model that will answer it.
use yllmd.Base.{
  ◌||◌, String, some, Result, ok, err, ◌>>=◌, ◌>>◌, reject, ◌==◌, ◌!=◌, string_eq, if◌then◌else◌,
}
use yllmd.Protocol.{Request, ModelTarget, no_target, normalized_target}
use yllmd.Protocol.Generation.{validate_generate}
use yllmd.Registry.{Registry, ResolvedTarget}
use yllmd.Registry.Routing.{resolve_target}
use yllmd.Daemon.{Refusal, invalid_request, provider_not_implemented, model_unavailable}

-- `if err != nil`, answered with one code.
abbrev pub or_refuse : {E A : Type 0} → Refusal → Result E A → Result Refusal A
or_refuse code (ok a) = ok a
or_refuse code (err e) = err code

-- `Server.defaultProvider`
unfoldable pub default_provider : Registry → String
default_provider r =
    if r.cfg.routing.default_provider == "" then "local" else r.cfg.routing.default_provider

-- The target that the answer reports: the route, or the exact model.
abbrev resolved_target : ResolvedTarget → ModelTarget
resolved_target res =
    if res.resolved_group != ""
    then record no_target { group = res.resolved_group; profile = res.resolved_profile }
    else record no_target { model = res.resolved_model }

unfoldable pub prepare : Registry → Request → Result Refusal (Request × ResolvedTarget)
unfolding default_provider
prepare r req = do
  or_refuse invalid_request (validate_generate req)
  let provider =
      if (req.provider == "") || (req.provider == "auto") then default_provider r else req.provider
  reject (provider != "local") provider_not_implemented
  target ← or_refuse invalid_request (normalized_target req)
  resolved ← or_refuse model_unavailable (resolve_target r target)
  ok (
    record req {
      provider = provider;
      model = resolved.resolved_model;
      target = some (resolved_target resolved);
    },
    resolved,
  )
