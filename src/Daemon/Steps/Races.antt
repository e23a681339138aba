-- ===== src/Daemon/Steps/Races.antt =====
-- internal/daemon/server.go: requests with one id, cancelled and sent again; `removeQueued` goes by the id
-- alone.
use text.Mathlib.TextEquality.{eq_iff}
use yllmd.Base.{ℕ, ◌≡◌, ap, ◌∙◌, false, String, none, [], string_eq, nat_eq, arith}
use yllmd.Base.Dict.{Dict, lookup, erase, lookup-erase}
use yllmd.Daemon.Queue.{
  Job, Worker, taken, dequeued, Server, work, work_from, remove_queued, cancel, cancel_active,
  cancel_queued,
}
use yllmd.Daemon.Steps.Invariant.{Inv, Holds, active_of}

-- The state in which the worker has dropped the entry of the job that it took.
abbrev dropped : Server → Job → Server
dropped s a = record s { queued = erase a.request.id s.queued; worker = dequeued a }

work_taken : (s : Server) (a : Job) → s.worker ≡ taken a → work s ≡ (dropped s a, [])
unfolding work work_from remove_queued
work_taken s a w = ap (λ (x : Worker). work_from x s) w

lookup-erase_same : (id other : String) (m : Dict ℕ) → id ≡ other → lookup id (erase other m) ≡ none
lookup-erase_same id other m same = lookup-erase other id m ∙ ground (arith, eq_iff other id)

cancel_unlisted :
    (s : Server) (id : String)
    → lookup id s.active ≡ none
    → lookup id s.queued ≡ none
    → cancel s id ≡ (s, false)
unfolding cancel cancel_active cancel_queued
cancel_unlisted s id a q = rw (a, cancel_active, q, cancel_queued)

-- When the worker drops the entry of a job that it took, another job with the same id that waits in
-- the channel loses its entry too: it stays in the channel, and a cancellation of its id is refused.
pub work-forgets :
    {capacity : ℕ} (s : Server) (a b : Job)
    → Inv capacity s
    → s.worker ≡ taken a
    → b.request.id ≡ a.request.id
    → Holds b.request.id b.serial s.jobs
    → Holds b.request.id b.serial (work s).0.jobs
      × (lookup b.request.id (work s).0.queued ≡ none)
      × (cancel (work s).0 b.request.id ≡ ((work s).0, false))
unfolding lookup
work-forgets s a b inv w same held =
    let inactive : lookup b.request.id s.active ≡ none =
      ap (lookup b.request.id) (inv.single ∙ ap active_of w) in
    let unlisted : lookup b.request.id (erase a.request.id s.queued) ≡ none =
      lookup-erase_same b.request.id a.request.id s.queued same in
    rw (work_taken s a w)
      (held, unlisted, cancel_unlisted (dropped s a) b.request.id inactive unlisted)
