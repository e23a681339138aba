-- ===== src/Tests/Runs.antt =====
-- A daemon with room for two jobs: a request is queued, cancelled, and sent again under the same id.
use yllmd.Base.{ℕ, ◌≡◌, refl, inl, true, false, none, some, [], ◌∷◌, ◌++◌, string_eq, nat_eq}
use yllmd.Base.Dict.{lookup, insert, erase, has_key}
use yllmd.Protocol.{no_target}
use yllmd.Registry.{ResolvedTarget}
use yllmd.Registry.Routing.{requested}
use yllmd.Daemon.Queue.{
  Job, Server, taken, new_server, register, offer, drop_job, work, cancel, is_idle,
}
use yllmd.Daemon.Steps.{
  find_job, Step, registers, offers, works, cancels, Reach, start, next, Steps, here, later,
}
use yllmd.Daemon.Steps.Invariant.{Inv, Holds}
use yllmd.Daemon.Steps.Reachable.{Reach-Inv}
use yllmd.Daemon.Steps.Order.{admitted, all_taken, Steps-fifo}
use yllmd.Daemon.Steps.Races.{work-forgets}
use yllmd.Daemon.Steps.Cancellation.{Runs, cancel_never-Runs}
use yllmd.Tests.Data.{request_of}

abbrev large : ResolvedTarget
large = record (requested no_target) { resolved_model = "large" }

abbrev job : ℕ → Job
job n = record { serial = n; request = request_of "a"; resolved = large }

abbrev entered : Server
entered = record (new_server 2) { queued = ("a", 0) ∷ []; entering = job 0 ∷ []; next_serial = 1 }

abbrev waiting_there : Server
waiting_there = record entered { entering = []; jobs = job 0 ∷ [] }

abbrev popped : Server
popped = record waiting_there { jobs = []; worker = taken (job 0) }

abbrev cancelled : Server
cancelled = record popped { queued = []; done = 0 ∷ [] }

abbrev again : Server
again = record cancelled { queued = ("a", 1) ∷ []; entering = job 1 ∷ []; next_serial = 2 }

abbrev twice : Server
twice = record again { entering = []; jobs = job 1 ∷ [] }

registers_first : Step (new_server 2) entered
unfolding register new_server insert has_key lookup
registers_first = registers (request_of "a") large 1 refl

offers_first : Step entered waiting_there
unfolding offer new_server find_job drop_job
offers_first = offers (job 0) 1 false refl refl

pops : Step waiting_there popped
unfolding work new_server
pops = works refl

cancels_it : Step popped cancelled
unfolding cancel new_server lookup erase
cancels_it = cancels "a" refl

registers_again : Step cancelled again
unfolding register new_server insert has_key lookup
registers_again = registers (request_of "a") large 1 refl

offers_again : Step again twice
unfolding offer new_server find_job drop_job
offers_again = offers (job 1) 1 false refl refl

steps_taken : Steps entered popped
steps_taken = later (later here offers_first) pops

Steps-fifo_example : entered.jobs ++ admitted steps_taken ≡ all_taken steps_taken ++ popped.jobs
Steps-fifo_example = Steps-fifo steps_taken

reached : Reach 2 twice
reached =
    next
      (next (next (next (next (next start registers_first) offers_first) pops) cancels_it)
        registers_again)
      offers_again

Reach-Inv_example : Inv 2 twice
Reach-Inv_example = Reach-Inv reached

work-forgets_example :
    Holds "a" 1 (work twice).0.jobs
    × (lookup "a" (work twice).0.queued ≡ none)
    × (cancel (work twice).0 "a" ≡ ((work twice).0, false))
work-forgets_example =
    work-forgets twice (job 0) (job 1) (Reach-Inv reached) refl refl (inl (refl, refl))

-- The daemon then reports that it is idle, with a job in its channel.
idle_test : is_idle (work twice).0 ≡ true
unfolding is_idle work new_server erase
idle_test = refl

-- The first request is cancelled while it waits in the channel; the worker then takes it and drops it.
nothing_active : lookup "a" waiting_there.active ≡ none
unfolding lookup new_server
nothing_active = refl

listed : lookup "a" waiting_there.queued ≡ some 0
unfolding lookup
listed = refl

abbrev skipped : Server
skipped = record waiting_there { jobs = []; queued = []; done = 0 ∷ [] }

not_running : ¬ Runs 0 waiting_there.worker
unfolding new_server
not_running h = h

drops : Steps (cancel waiting_there "a").0 skipped
unfolding cancel lookup erase work new_server
drops = later (later (later here (works refl)) (works refl)) (works refl)

cancel_never-Runs_example : ¬ Runs 0 skipped.worker
cancel_never-Runs_example =
    cancel_never-Runs waiting_there "a" 0 nothing_active listed not_running drops
