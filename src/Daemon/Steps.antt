-- ===== src/Daemon/Steps.antt =====
-- internal/daemon/server.go: the daemon as interleavings. Each step is one critical section, one `select`,
-- one move of the worker, or an event from outside, in any order.
pub mod Invariant
mod Admission
mod Working
pub mod Reachable
pub mod Races
pub mod Cancellation
pub mod Order
use yllmd.Base.{
  ℕ, Bool, String, Option, none, some, List, [], ◌∷◌, Result, ok, ◌≡◌, ◌==◌, nat_eq, if◌then◌else◌,
}
use yllmd.Protocol.{Request}
use yllmd.Registry.{ResolvedTarget}
use yllmd.Daemon.Queue.{Job, Server, new_server, register, offer, work, cancel, expire, shut_down}

-- The handler with that serial number which is about to reach its `select`.
unfoldable pub find_job : ℕ → List Job → Option Job
find_job serial [] = none
find_job serial (j ∷ js) = if j.serial == serial then some j else find_job serial js

pub data Step (s t : Server) : Type 0 where
  registers :
      (req : Request) (resolved : ResolvedTarget) (position : ℕ)
      → register s req resolved ≡ ok (t, position)
      → Step s t
  offers :
      (j : Job) (position : ℕ) (timeout_first : Bool)
      → find_job j.serial s.entering ≡ some j
      → t ≡ (offer s j position timeout_first).0
      → Step s t
  works : t ≡ (work s).0 → Step s t
  cancels : (id : String) → t ≡ (cancel s id).0 → Step s t
  expires : (serial : ℕ) → t ≡ expire s serial → Step s t
  shuts_down : t ≡ shut_down s → Step s t

-- What a daemon with room for `capacity` jobs can come to.
pub data Reach (capacity : ℕ) : Server → Type 0 where
  start : Reach capacity (new_server capacity)
  next : {s t : Server} → Reach capacity s → Step s t → Reach capacity t

-- Some steps, in order.
pub data Steps (s : Server) : Server → Type 0 where
  here : Steps s s
  later : {t u : Server} → Steps s t → Step t u → Steps s u
