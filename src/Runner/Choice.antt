-- ===== src/Runner/Choice.antt =====
-- internal/providers/local/runner.go: which model `Generate` runs, and the session that it leaves.
use yllmd.Base.{
  ℕ, zero, suc, ◌&&◌, ◌≢◌, ◌==◌, sym, is_empty, if◌then◌else◌, ◌≡◌, ◌⊎◌, refl, ap, ◌∙◌, arith, inl,
  inr, Bool-cases, Result-cases, Bool, true, false, String, Option, none, some, List, [], ◌∷◌, ◌++◌,
  ok, string_eq, nat_eq,
}
use mathlib.Core.Path.{subst}
use text.Mathlib.TextEquality.{eq_iff}
use yllmd.Registry.{Registry, LocalModel, resolve}
use yllmd.Runner.Startup.{
  GenerateError, not_started, GenerateRequest, Session, session_for, chosen, generate_loop,
  generate,
}

and_true : (b : Bool) → (b && true) ≡ b
and_true true = refl
and_true false = refl

and_false : (b : Bool) → (b && false) ≡ false
and_false true = refl
and_false false = refl

later_index : (index : ℕ) → (suc index == 0) ≡ false
later_index index = ground arith

module _ (r : Registry) (starts : LocalModel → Bool) (empty : LocalModel) where
  -- A configured model that the session is not for, and for which no runner starts.
  abbrev pub Fails : Session → String → Type 0
  Fails s name = (m : LocalModel) × (resolve r name ≡ ok m) × (s ≢ some m.name) × (starts m ≡ false)

  -- All fail, one after the other: a start that fails leaves no session.
  abbrev pub AllFail : Session → List String → Type 0
  AllFail s [] = Unit {0}
  AllFail s (name ∷ names) = Fails s name × AllFail none names

  -- The session before a model is for it already, or a runner starts for the model.
  abbrev pub HasSession : Session → List String → LocalModel → Type 0
  HasSession s [] m = (s ≡ some m.name) ⊎ (starts m ≡ true)
  HasSession s (name ∷ names) m = starts m ≡ true

  -- How the request goes on to `run`: as it is, or as a fallback from the model that it was a fallback
  -- from before, or else from its own.
  abbrev pub IsRequestOf : Bool → GenerateRequest → LocalModel → GenerateRequest → Type 0
  IsRequestOf true request m q = q ≡ request
  IsRequestOf false request m q =
      (q.fallback ≡ true)
      × (q.model ≡ m.name)
      × (q.fallback_models ≡ request.fallback_models)
      × (((request.fallback_from ≡ "") × (q.fallback_from ≡ request.model))
          ⊎ ((request.fallback_from ≢ "") × (q.fallback_from ≡ request.fallback_from)))

  -- The first of the names whose model has a session or gets one.
  pub record Serves (names : List String) (s : Session) (first : Bool) (request : GenerateRequest)
      (t : Session) (q : GenerateRequest) (m : LocalModel) : Type 0 where
    pub failed : List String
    pub name : String
    pub later : List String
    pub order : names ≡ failed ++ (name ∷ later)
    pub unstarted : AllFail s failed
    pub found : resolve r name ≡ ok m
    pub ready : HasSession s failed m
    pub session : t ≡ some m.name
    pub request_of : IsRequestOf (first && is_empty failed) request m q

  chosen-IsRequestOf :
      (index : ℕ) (request : GenerateRequest) (m : LocalModel)
      → IsRequestOf (index == 0) request m (chosen index request m)
  unfolding chosen
  chosen-IsRequestOf zero request m = refl
  chosen-IsRequestOf (suc index) request m =
      let marked : GenerateRequest = record request {
        fallback = true;
        fallback_from =
            if request.fallback_from == "" then request.model else request.fallback_from;
        model = m.name;
      } in
      let same : chosen (suc index) request m ≡ marked =
        ap (λ b. if b then request else marked) (later_index index) in
      let how : IsRequestOf false request m marked = (
        refl,
        refl,
        refl,
        elim (Bool-cases (request.fallback_from == "")) [
          | inl equal ↦ inl (
            (eq_iff request.fallback_from "").0 equal,
            ap (λ b. if b then request.model else request.fallback_from) equal,
          )
          | inr apart ↦ inr (
            λ equal. absurd (ground (arith, apart, (eq_iff request.fallback_from "").1 equal)),
            ap (λ b. if b then request.model else request.fallback_from) apart,
          )
        ],
      ) in
      subst (λ b. IsRequestOf b request m (chosen (suc index) request m)) (sym (later_index index))
        (subst (IsRequestOf false request m) (sym same) how)

  session_for-fine :
      (session : Session) (m : LocalModel)
      → (session_for starts session m).1 ≡ true
      → (session_for starts session m).0 ≡ some m.name
  unfolding session_for
  session_for-fine none m h = ground arith
  session_for-fine (some current) m h = ground (arith, eq_iff current m.name)

  session_for-ready :
      (session : Session) (m : LocalModel)
      → (session_for starts session m).1 ≡ true
      → (session ≡ some m.name) ⊎ (starts m ≡ true)
  unfolding session_for
  session_for-ready none m h = inr (ground arith)
  session_for-ready (some current) m h = elim (Bool-cases (current == m.name)) [
    | inl same ↦ inl (ap some ((eq_iff current m.name).0 same))
    | inr apart ↦ inr (ground (arith, apart))
  ]

  session_for-fails :
      (session : Session) (m : LocalModel)
      → (session_for starts session m).1 ≡ false
      → ((session_for starts session m).0 ≡ none) × (session ≢ some m.name) × (starts m ≡ false)
  unfolding session_for
  session_for-fails none m h = (ground arith, λ same. cc, ground arith)
  session_for-fails (some current) m h = elim (Bool-cases (current == m.name)) [
    | inl same ↦ absurd (ground (arith, same))
    | inr apart ↦ (
      ground (arith, apart),
      λ same.
          let names : current ≡ m.name = cc in
          let equal = (eq_iff current m.name).1 names in absurd (ground (arith, equal, apart)),
      ground (arith, apart),
    )
  ]

  -- The step of the loop at one name.
  generate_step :
      (index : ℕ) (s : Session) (u : Option GenerateError) (request : GenerateRequest)
      (name : String) (names : List String) (t : Session) (q : GenerateRequest) (m : LocalModel)
      → generate_loop r starts empty index s u request (name ∷ names) ≡ (t, ok (q, m))
      → ((resolve r name ≡ ok m)
          × ((s ≡ some m.name) ⊎ (starts m ≡ true))
          × (t ≡ some m.name)
          × IsRequestOf (index == 0) request m q)
        ⊎ (Fails s name
            × (generate_loop r starts empty (suc index) none (some (not_started name)) request names
                ≡ (t, ok (q, m))))
  unfolding generate_loop
  generate_step index s u request name names t q m h = elim (Result-cases (resolve r name)) [
    | inr (e, missing) ↦ absurd (ground (arith, missing))
    | inl (c, found) ↦ elim (Bool-cases (session_for starts s c).1) [
      | inl fine ↦
          let same : c ≡ m = ground (arith, fine) in
          let passed : chosen index request c ≡ q = ground (arith, fine) in
          inl (
            found ∙ ap ok same,
            subst (λ x. (s ≡ some x.name) ⊎ (starts x ≡ true)) same (session_for-ready s c fine),
            ground (arith, fine, session_for-fine s c fine),
            subst (λ x. IsRequestOf (index == 0) request m x)
                (ap (chosen index request) (sym same) ∙ passed)
                (chosen-IsRequestOf index request m),
          )
      | inr fails ↦
          let (gone, other, unstarted) = session_for-fails s c fails in
          inr ((c, found, other, unstarted), ground (arith, fails, gone))
    ]
  ]

  first :
      (index : ℕ) (s : Session) (request : GenerateRequest) (name : String) (names : List String)
      (t : Session) (q : GenerateRequest) (m : LocalModel)
      → resolve r name ≡ ok m
      → (s ≡ some m.name) ⊎ (starts m ≡ true)
      → t ≡ some m.name
      → IsRequestOf (index == 0) request m q
      → Serves (name ∷ names) s (index == 0) request t q m
  first index s request name names t q m found ready session request_of = record {
    failed = [];
    name = name;
    later = names;
    order = refl;
    unstarted = tt;
    found = found;
    ready = ready;
    session = session;
    request_of = subst (λ b. IsRequestOf b request m q) (sym (and_true (index == 0))) request_of;
  }

  starts_then : (failed : List String) (m : LocalModel) → HasSession none failed m → starts m ≡ true
  starts_then [] m (inl served) = cc
  starts_then [] m (inr started) = started
  starts_then (name ∷ names) m started = started

  after :
      (s : Session) (is_first : Bool) (request : GenerateRequest) (name : String)
      (names : List String) (t : Session) (q : GenerateRequest) (m : LocalModel)
      → Fails s name
      → Serves names none false request t q m
      → Serves (name ∷ names) s is_first request t q m
  after s is_first request name names t q m fails next = record {
    failed = name ∷ next.failed;
    name = next.name;
    later = next.later;
    order = ap (◌∷◌ name) next.order;
    unstarted = (fails, next.unstarted);
    found = next.found;
    ready = starts_then next.failed m next.ready;
    session = next.session;
    request_of = subst (λ b. IsRequestOf b request m q) (sym (and_false is_first)) next.request_of;
  }

  generate_loop-Serves :
      (index : ℕ) (s : Session) (x : GenerateError) (request : GenerateRequest)
      (names : List String) (t : Session) (q : GenerateRequest) (m : LocalModel)
      → generate_loop r starts empty index s (some x) request names ≡ (t, ok (q, m))
      → Serves names s (index == 0) request t q m
  generate_loop-Serves index s x request [] t q m h = unfold generate_loop in absurd (ground arith)
  generate_loop-Serves index s x request (name ∷ names) t q m h =
      elim (generate_step index s (some x) request name names t q m h) [
        | inl (found, ready, session, request_of) ↦
            first index s request name names t q m found ready session request_of
        | inr (fails, next) ↦ after s (index == 0) request name names t q m fails (
            subst (λ b. Serves names none b request t q m) (later_index index)
              (generate_loop-Serves (suc index) none (not_started name) request names t q m next))
      ]

  -- When `Generate` chooses a model, it is that of the first of the requested model and its stand-ins
  -- that the session is for or a runner starts for. All before it are configured, but the session is not
  -- for them and no runner starts for them; a session that was there is kept only by the requested model
  -- itself. The session afterwards is that model's. The request goes on as it is with the requested
  -- model, and else marked as a fallback, with the stand-in's name, from the model that it was a
  -- fallback from before, or else from the requested one.
  pub generate-Serves :
      (s t : Session) (request q : GenerateRequest) (m : LocalModel)
      → generate r starts empty s request ≡ (t, ok (q, m))
      → Serves (request.model ∷ request.fallback_models) s true request t q m
  unfolding generate
  generate-Serves s t request q m h =
      elim (generate_step 0 s none request request.model request.fallback_models t q m h) [
        | inl (found, ready, session, request_of) ↦
            first 0 s request request.model request.fallback_models t q m found ready session
              request_of
        | inr (fails, next) ↦
            after s true request request.model request.fallback_models t q m fails (
              subst (λ b. Serves request.fallback_models none b request t q m) (later_index 0)
                (generate_loop-Serves 1 none (not_started request.model) request
                  request.fallback_models t q m next))
      ]
