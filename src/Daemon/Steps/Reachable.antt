-- ===== src/Daemon/Steps/Reachable.antt =====
-- internal/daemon/server.go: the daemon at any point of any interleaving.
use yllmd.Base.{ℕ, refl, string_eq, nat_eq, arith}
use yllmd.Daemon.Queue.{Server, new_server}
use yllmd.Daemon.Steps.{
  Step, registers, offers, works, cancels, expires, shuts_down, Reach, start, next,
}
use yllmd.Daemon.Steps.Invariant.{Inv}
use yllmd.Daemon.Steps.Admission.{register-Inv, offer-Inv}
use yllmd.Daemon.Steps.Working.{work-Inv, cancel-Inv, expire-Inv, shut_down-Inv}

Step-Inv : {capacity : ℕ} {s t : Server} → Step s t → Inv capacity s → Inv capacity t
Step-Inv {s} {t} (registers req resolved position e) v = register-Inv s v req resolved t position e
Step-Inv {s} (offers j position first found e) v = rw e (offer-Inv s v j position first found)
Step-Inv {s} (works e) v = rw e (work-Inv s v)
Step-Inv {s} (cancels id e) v = rw e (cancel-Inv s v id)
Step-Inv {s} (expires serial e) v = rw e (expire-Inv s v serial)
Step-Inv {s} (shuts_down e) v = rw e (shut_down-Inv s v)

new_server-Inv : (capacity : ℕ) → Inv capacity (new_server capacity)
unfolding new_server
new_server-Inv capacity = record { room = refl; bounded = omega arith; single = refl; tracked = tt }

-- At every point of every interleaving the channel holds no more jobs than it has room for, the
-- active requests are exactly the one that the worker runs, if any, and each queued request is that
-- of a job still on its way to the worker.
pub Reach-Inv : {capacity : ℕ} {s : Server} → Reach capacity s → Inv capacity s
Reach-Inv start = new_server-Inv _
Reach-Inv (next r step) = Step-Inv step (Reach-Inv r)
