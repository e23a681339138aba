-- ===== src/Runner/Startup.antt =====
-- internal/providers/local/runner.go: `sessionFor` and the choice of a model in `Generate`. A session is
-- known by its model's name; whether a runner process starts for a model is given.
use yllmd.Base.{
  ℕ, suc, Bool, true, false, String, Option, none, some, List, [], ◌∷◌, Result, ok, err, ◌==◌,
  string_eq, nat_eq, if◌then◌else◌,
}
use yllmd.Registry.{Registry, RegistryError, LocalModel, resolve}

pub data GenerateError : Type 0 where
  unresolved : RegistryError → GenerateError
  not_started : String → GenerateError

-- The parts of `providers.GenerateRequest` that the choice reads and changes.
pub record GenerateRequest : Type 0 where
  pub model : String
  pub fallback : Bool
  pub fallback_from : String
  pub fallback_models : List String

abbrev pub Session : Type 0
Session = Option String

abbrev pub serves : Session → String → Bool
serves none name = false
serves (some current) name = current == name

-- The new session, and whether there is one for the model.
unfoldable pub session_for : (LocalModel → Bool) → Session → LocalModel → Session × Bool
session_for starts session model =
    if serves session model.name
    then (session, true)
    else if starts model
    then (some model.name, true)
    else (none, false)

-- The request as it goes on to `run`, with the model at `index`.
unfoldable pub chosen : ℕ → GenerateRequest → LocalModel → GenerateRequest
chosen index request model = if index == 0 then request else record request {
  fallback = true;
  fallback_from = if request.fallback_from == "" then request.model else request.fallback_from;
  model = model.name;
}

-- What `Generate` comes to: an error, or the request and the model to run.
abbrev pub Started : Type 0
Started = Session × Result GenerateError (GenerateRequest × LocalModel)

-- The end of the loop: every name has failed to start. Without any name, `run` goes on with no model.
abbrev pub no_model :
    LocalModel
    → GenerateRequest
    → Option GenerateError
    → Result GenerateError (GenerateRequest × LocalModel)
no_model empty request none = ok (request, empty)
no_model empty request (some e) = err e

module _ (r : Registry) (starts : LocalModel → Bool) (empty : LocalModel) where
  unfoldable pub generate_loop :
      ℕ → Session → Option GenerateError → GenerateRequest → List String → Started
  unfolding session_for chosen
  generate_loop index session startup request [] = (session, no_model empty request startup)
  generate_loop index session startup request (name ∷ names) = elim (resolve r name) [
    | err e ↦ (session, err (unresolved e))
    | ok candidate ↦
        let (session', fine) = session_for starts session candidate in
        let rest = generate_loop (suc index) session' (some (not_started name)) request names in
        if fine then (session', ok (chosen index request candidate, candidate)) else rest
  ]

  unfoldable pub generate : Session → GenerateRequest → Started
  unfolding generate_loop
  generate session request =
      generate_loop 0 session none request (request.model ∷ request.fallback_models)
