-- ===== src/Daemon/Steps/Cancellation.antt =====
-- internal/daemon/server.go: what follows a cancellation, over any further steps.
use mathlib.Core.Bool.{false≢true}
use mathlib.Core.Path.{subst}
use yllmd.Base.{
  ℕ, ◌≡◌, refl, ap, inl, inr, Bool-cases, Bool, true, String, Option, none, some, List, [], ◌∷◌,
  ◌++◌, ok, contains, length, ltb, not, ◌&&◌, sym, ◌∙◌, nat_eq, string_eq, arith,
}
use yllmd.Base.Dict.{lookup}
use yllmd.Protocol.{Request}
use yllmd.Registry.{ResolvedTarget}
use yllmd.Daemon.Queue.{
  Job, Worker, waiting, taken, dequeued, checked, running, Server, register, offer, work, work_from,
  take_from, check_or_skip, set_active, finish, remove_queued, cancel, cancel_active, cancel_queued,
  expire, shut_down, serials,
}
use yllmd.Daemon.Steps.{
  Step, registers, offers, works, cancels, expires, shuts_down, Steps, here, later,
}

-- The worker runs the job, or is about to, past its last test of the job's context.
abbrev pub Runs : ℕ → Worker → Type 0
Runs n (checked j) = j.serial ≡ n
Runs n (running j) = j.serial ≡ n
Runs n _ = ⊥

-- A job whose context has ended, and which the worker does not run.
abbrev pub IsStopped : ℕ → Server → Type 0
IsStopped n s = (contains s.done n ≡ true) × ¬ Runs n s.worker

contains-append : (xs ys : List ℕ) (n : ℕ) → contains ys n ≡ true → contains (xs ++ ys) n ≡ true
contains-append [] ys n h = h
contains-append (x ∷ xs) ys n h = ground (arith, contains-append xs ys n h)

register-IsStopped :
    (n : ℕ) (s t : Server) (req : Request) (resolved : ResolvedTarget) (position : ℕ)
    → register s req resolved ≡ ok (t, position)
    → IsStopped n s
    → IsStopped n t
unfolding register
register-IsStopped n s t req resolved position e h =
    let same_done : t.done ≡ s.done = ground (arith, e) in
    let same_worker : t.worker ≡ s.worker = ground (arith, e) in rw (same_done, same_worker) h

offer-IsStopped :
    (n : ℕ) (s : Server) (j : Job) (position : ℕ) (first : Bool)
    → IsStopped n s
    → IsStopped n (offer s j position first).0
unfolding offer remove_queued
offer-IsStopped n s j position first h =
    let room = ltb (length s.jobs) s.capacity in
    let ended = contains s.done j.serial in
    elim (Bool-cases (room && not (ended && first))) [
      | inl goes ↦ rw goes h
      | inr stays ↦ rw stays (elim (Bool-cases ended) [
        | inl late ↦ rw late h
        | inr full ↦ rw full (ground (arith, h.0), h.1)
      ])
    ]

take_from-IsStopped :
    (n : ℕ) (js : List Job) (s : Server) → IsStopped n s → IsStopped n (take_from js s)
unfolding take_from
take_from-IsStopped n [] s h = h
take_from-IsStopped n (j ∷ js) s h = (h.0, λ r. r)

check_or_skip-IsStopped :
    (n : ℕ) (j : Job) (s : Server) → IsStopped n s → IsStopped n (check_or_skip j s).0
unfolding check_or_skip
check_or_skip-IsStopped n j s h = elim (Bool-cases (contains s.done j.serial)) [
  | inl ended ↦ rw ended (h.0, λ r. r)
  | inr live ↦ rw live (h.0, λ same. false≢true (sym live ∙ ap (contains s.done) same ∙ h.0))
]

work_from-IsStopped :
    (n : ℕ) (w : Worker) (s : Server) → s.worker ≡ w → IsStopped n s → IsStopped n (work_from w s).0
unfolding work_from set_active finish remove_queued
work_from-IsStopped n waiting s e h = take_from-IsStopped n s.jobs s h
work_from-IsStopped n (taken j) s e h = (h.0, λ r. r)
work_from-IsStopped n (dequeued j) s e h = check_or_skip-IsStopped n j s h
work_from-IsStopped n (checked j) s e h = (h.0, subst (λ w. ¬ Runs n w) e h.1)
work_from-IsStopped n (running j) s e h = (ground (arith, h.0), λ r. r)

cancel_queued-IsStopped :
    (n : ℕ) (s : Server) (id : String) (o : Option ℕ)
    → IsStopped n s
    → IsStopped n (cancel_queued id s o).0
unfolding cancel_queued
cancel_queued-IsStopped n s id none h = h
cancel_queued-IsStopped n s id (some serial) h = (ground (arith, h.0), h.1)

cancel_active-IsStopped :
    (n : ℕ) (s : Server) (id : String) (o : Option ℕ)
    → IsStopped n s
    → IsStopped n (cancel_active id s o).0
unfolding cancel_active
cancel_active-IsStopped n s id none h = cancel_queued-IsStopped n s id (lookup id s.queued) h
cancel_active-IsStopped n s id (some serial) h = (ground (arith, h.0), h.1)

cancel-IsStopped : (n : ℕ) (s : Server) (id : String) → IsStopped n s → IsStopped n (cancel s id).0
unfolding cancel
cancel-IsStopped n s id h = cancel_active-IsStopped n s id (lookup id s.active) h

Step-IsStopped : {s t : Server} (n : ℕ) → Step s t → IsStopped n s → IsStopped n t
Step-IsStopped {s} {t} n (registers req resolved position e) h =
    register-IsStopped n s t req resolved position e h
Step-IsStopped {s} n (offers j position first found e) h =
    rw e (offer-IsStopped n s j position first h)
Step-IsStopped {s} n (works e) h = rw e (unfold work in work_from-IsStopped n s.worker s refl h)
Step-IsStopped {s} n (cancels id e) h = rw e (cancel-IsStopped n s id h)
Step-IsStopped {s} n (expires serial e) h = rw e (unfold expire in (ground (arith, h.0), h.1))
Step-IsStopped {s} n (shuts_down e) h = rw e (
    unfold shut_down in
    (contains-append (serials s.active) _ n (contains-append (serials s.queued) s.done n h.0), h.1))

Steps-IsStopped : {s t : Server} (n : ℕ) → Steps s t → IsStopped n s → IsStopped n t
Steps-IsStopped n here h = h
Steps-IsStopped n (later steps step) h = Step-IsStopped n step (Steps-IsStopped n steps h)

cancel-stops :
    (s : Server) (id : String) (n : ℕ)
    → lookup id s.active ≡ none
    → lookup id s.queued ≡ some n
    → ¬ Runs n s.worker
    → IsStopped n (cancel s id).0
unfolding cancel cancel_active cancel_queued
cancel-stops s id n a q idle = rw (a, q) (ground arith, idle)

-- After a cancellation of an id that is not active and under which job `n` is queued, while the worker
-- is not already past its last test of that job, the worker never runs job `n`, whatever steps follow.
pub cancel_never-Runs :
    {t : Server} (s : Server) (id : String) (n : ℕ)
    → lookup id s.active ≡ none
    → lookup id s.queued ≡ some n
    → ¬ Runs n s.worker
    → Steps (cancel s id).0 t
    → ¬ Runs n t.worker
cancel_never-Runs s id n a q idle steps = (Steps-IsStopped n steps (cancel-stops s id n a q idle)).1
