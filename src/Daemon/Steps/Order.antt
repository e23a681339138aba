-- ===== src/Daemon/Steps/Order.antt =====
-- internal/daemon/server.go: the order of the jobs from the channel to the worker, over a run of steps.
use mathlib.Core.List.{append_assoc, append-nil}
use yllmd.Base.{
  ℕ, ◌≡◌, refl, sym, ap, ◌∙◌, inl, inr, Bool-cases, Bool, not, ◌&&◌, String, List, [], ◌∷◌, ◌++◌,
  ok, contains, length, ltb, nat_eq, string_eq, if◌then◌else◌, arith,
}
use yllmd.Protocol.{Request}
use yllmd.Registry.{ResolvedTarget}
use yllmd.Daemon.Queue.{
  Job, Worker, waiting, taken, dequeued, checked, running, Server, register, offer, work, work_from,
  take_from, check_or_skip, set_active, finish, remove_queued, cancel, cancel_active, cancel_queued,
  expire, shut_down,
}
use yllmd.Daemon.Steps.{
  Step, registers, offers, works, cancels, expires, shuts_down, Steps, here, later,
}

-- The job that comes into the channel in a step.
abbrev pub admits : {s t : Server} → Step s t → List Job
admits {s} (offers j position first found e) =
    if ltb (length s.jobs) s.capacity && not (contains s.done j.serial && first) then j ∷ [] else []
admits _ = []

-- The job that the worker holds.
abbrev pub held : Worker → List Job
held waiting = []
held (taken j) = j ∷ []
held (dequeued j) = j ∷ []
held (checked j) = j ∷ []
held (running j) = j ∷ []

-- The job that a worker that waited holds afterwards.
abbrev pub picked : Worker → Worker → List Job
picked waiting w = held w
picked _ w = []

-- The job that the worker takes in a step.
abbrev pub takes : {s t : Server} → Step s t → List Job
takes {s} {t} (works e) = picked s.worker t.worker
takes _ = []

abbrev pub admitted : {s t : Server} → Steps s t → List Job
admitted here = []
admitted (later steps step) = admitted steps ++ admits step

abbrev pub all_taken : {s t : Server} → Steps s t → List Job
all_taken here = []
all_taken (later steps step) = all_taken steps ++ takes step

register-jobs :
    (s t : Server) (req : Request) (resolved : ResolvedTarget) (position : ℕ)
    → register s req resolved ≡ ok (t, position)
    → s.jobs ≡ t.jobs
unfolding register
register-jobs s t req resolved position e = ground (arith, e)

offer-jobs :
    (s : Server) (j : Job) (position : ℕ) (first : Bool)
    → s.jobs
        ++ (if ltb (length s.jobs) s.capacity && not (contains s.done j.serial && first)
            then j ∷ []
            else [])
      ≡ (offer s j position first).0.jobs
unfolding offer remove_queued
offer-jobs s j position first =
    let room = ltb (length s.jobs) s.capacity in
    let ended = contains s.done j.serial in
    elim (Bool-cases (room && not (ended && first))) [
      | inl goes ↦ rw goes refl
      | inr stays ↦ rw stays (elim (Bool-cases ended) [
        | inl late ↦ rw late (append-nil s.jobs)
        | inr full ↦ rw full (append-nil s.jobs)
      ])
    ]

take_from-jobs :
    (js : List Job) (s : Server)
    → s.jobs ≡ js
    → s.worker ≡ waiting
    → js ≡ held (take_from js s).worker ++ (take_from js s).jobs
unfolding take_from
take_from-jobs [] s e w = sym (ap (λ x. held x ++ s.jobs) w ∙ e)
take_from-jobs (j ∷ js) s e w = refl

check_or_skip-jobs : (j : Job) (s : Server) → s.jobs ≡ (check_or_skip j s).0.jobs
unfolding check_or_skip
check_or_skip-jobs j s = ground arith

work_from-jobs :
    (w : Worker) (s : Server)
    → s.worker ≡ w
    → s.jobs ≡ picked w (work_from w s).0.worker ++ (work_from w s).0.jobs
unfolding work_from remove_queued set_active finish
work_from-jobs waiting s w = take_from-jobs s.jobs s refl w
work_from-jobs (taken j) s w = refl
work_from-jobs (dequeued j) s w = check_or_skip-jobs j s
work_from-jobs (checked j) s w = refl
work_from-jobs (running j) s w = refl

cancel-jobs : (s : Server) (id : String) → s.jobs ≡ (cancel s id).0.jobs
unfolding cancel cancel_active cancel_queued
cancel-jobs s id = ground arith

Step-jobs : {s t : Server} (step : Step s t) → s.jobs ++ admits step ≡ takes step ++ t.jobs
Step-jobs {s} {t} (registers req resolved position e) =
    append-nil s.jobs ∙ register-jobs s t req resolved position e
Step-jobs {s} (offers j position first found e) = rw e (offer-jobs s j position first)
Step-jobs {s} (works e) = rw e (append-nil s.jobs ∙ (unfold work in work_from-jobs s.worker s refl))
Step-jobs {s} (cancels id e) = rw e (append-nil s.jobs ∙ cancel-jobs s id)
Step-jobs {s} (expires serial e) = rw e (unfold expire in append-nil s.jobs)
Step-jobs {s} (shuts_down e) = rw e (unfold shut_down in append-nil s.jobs)

-- A job is taken in a step in which a worker that waited comes to hold it. In every run of the daemon, the jobs that wait at its start followed by those that come into the
-- channel are, in this order, the jobs that the worker takes followed by those that wait at its end.
pub Steps-fifo :
    {s t : Server} (steps : Steps s t) → s.jobs ++ admitted steps ≡ all_taken steps ++ t.jobs
Steps-fifo {s} here = append-nil s.jobs
Steps-fifo {s} {t} (later {t = mid} steps step) =
    sym (append_assoc s.jobs (admitted steps) (admits step))
    ∙ ap (λ (js : List Job). js ++ admits step) (Steps-fifo steps)
    ∙ append_assoc (all_taken steps) mid.jobs (admits step)
    ∙ ap (◌++◌ (all_taken steps)) (Step-jobs step)
    ∙ sym (append_assoc (all_taken steps) (takes step) t.jobs)
