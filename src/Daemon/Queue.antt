-- ===== src/Daemon/Queue.antt =====
-- internal/daemon/server.go: the shared state of the daemon and the critical sections that change it.
-- A job is known by a serial number, as the source knows it by its pointer, and `done` lists the jobs
-- whose context has ended, by a cancellation or a timeout.
use yllmd.Base.{
  ℕ, ◌+◌, Bool, true, false, not, ◌&&◌, String, Option, none, some, List, [], ◌∷◌, ◌++◌, Result, ok,
  ◌>>◌, reject, length, contains, is_empty, ltb, ◌==◌, string_eq, nat_eq, if◌then◌else◌,
}
use yllmd.Base.Dict.{Dict, lookup, insert, erase, has_key}
use yllmd.Protocol.{Request}
use yllmd.Registry.{ResolvedTarget}
use yllmd.Daemon.{
  Refusal, shutting_down, already_active, already_queued, queue_timeout, queue_full,
  cancelled_before_start, Written, accepted, output_format, write_generate_error,
}

pub record Job : Type 0 where
  pub serial : ℕ
  pub request : Request
  pub resolved : ResolvedTarget

-- Where the one worker stands: waiting; a job taken from the channel; the same job, no more listed as
-- queued; found not to have ended; and running.
pub data Worker : Type 0 where
  waiting : Worker
  taken dequeued checked running : Job → Worker

-- `entering` holds the jobs of handlers between their critical section and their `select`.
pub record Server : Type 0 where
  pub capacity : ℕ
  pub jobs : List Job
  pub entering : List Job
  pub active : Dict ℕ
  pub queued : Dict ℕ
  pub done : List ℕ
  pub worker : Worker
  pub next_serial : ℕ
  pub shutdown : Bool

-- The daemon at its start.
unfoldable pub new_server : ℕ → Server
new_server capacity = record {
  capacity = capacity;
  jobs = [];
  entering = [];
  active = [];
  queued = [];
  done = [];
  worker = waiting;
  next_serial = 0;
  shutdown = false;
}

abbrev pub job_of : Server → Request → ResolvedTarget → Job
job_of s req resolved = record { serial = s.next_serial; request = req; resolved = resolved }

-- The critical section of `enqueueGenerate`, with the queue position that it computes.
unfoldable pub register : Server → Request → ResolvedTarget → Result Refusal (Server × ℕ)
unfolding insert has_key
register s req resolved = do
  reject s.shutdown shutting_down
  reject (has_key req.id s.active) already_active
  reject (has_key req.id s.queued) already_queued
  ok (
    record s {
      queued = insert req.id s.next_serial s.queued;
      entering = job_of s req resolved ∷ s.entering;
      next_serial = s.next_serial + 1;
    },
    length s.jobs + 1,
  )

-- `removeQueued`
unfoldable pub remove_queued : String → Server → Server
unfolding erase
remove_queued id s = record s { queued = erase id s.queued }

-- The handler that comes to its `select` is no more between the two.
unfoldable pub drop_job : ℕ → List Job → List Job
drop_job serial [] = []
drop_job serial (j ∷ js) =
    let rest = drop_job serial js in if j.serial == serial then js else j ∷ rest

-- The `select` of `enqueueGenerate`. With room in the channel and an ended context Go takes either
-- case: `timeout_first` says which.
unfoldable pub offer : Server → Job → ℕ → Bool → Server × List Written
unfolding drop_job remove_queued output_format write_generate_error
offer s job position timeout_first =
    let left = record s { entering = drop_job job.serial s.entering } in
    let room = ltb (length s.jobs) s.capacity in
    let ended = contains s.done job.serial in
    if room && not (ended && timeout_first)
    then (
      record left { jobs = s.jobs ++ (job ∷ []) },
      if output_format job.request == "json" then accepted job.request.id position ∷ [] else [],
    )
    else if ended
    then (remove_queued job.request.id left, write_generate_error job.request queue_timeout)
    else (
      record (remove_queued job.request.id left) { done = job.serial ∷ s.done },
      write_generate_error job.request queue_full,
    )

-- The worker's loop, one critical section at a time.
unfoldable pub take_from : List Job → Server → Server
take_from [] s = s
take_from (j ∷ js) s = record s { jobs = js; worker = taken j }

-- The `select` of the worker.
unfoldable pub check_or_skip : Job → Server → Server × List Written
check_or_skip j s =
    if contains s.done j.serial
    then (record s { worker = waiting }, write_generate_error j.request cancelled_before_start)
    else (record s { worker = checked j }, [])

-- `setActive`, and `runJob` begins.
unfoldable pub set_active : Job → Server → Server
unfolding insert
set_active j s = record s { worker = running j; active = insert j.request.id j.serial s.active }

-- The end of a job: `clearActive`, and its context ends.
unfoldable pub finish : Job → Server → Server
finish j s = record s {
  worker = waiting;
  active = erase j.request.id s.active;
  done = j.serial ∷ s.done;
}

-- One step of the worker from where it stands; a job that is running ends.
unfoldable pub work_from : Worker → Server → Server × List Written
unfolding take_from check_or_skip set_active finish remove_queued write_generate_error
work_from waiting s = (take_from s.jobs s, [])
work_from (taken j) s = (record (remove_queued j.request.id s) { worker = dequeued j }, [])
work_from (dequeued j) s = check_or_skip j s
work_from (checked j) s = (set_active j s, [])
work_from (running j) s = (finish j s, [])

unfoldable pub work : Server → Server × List Written
unfolding work_from
work s = work_from s.worker s

unfoldable pub cancel_queued : String → Server → Option ℕ → Server × Bool
cancel_queued id s none = (s, false)
cancel_queued id s (some serial) =
    (record s { done = serial ∷ s.done; queued = erase id s.queued }, true)

unfoldable pub cancel_active : String → Server → Option ℕ → Server × Bool
unfolding cancel_queued
cancel_active id s none = cancel_queued id s (lookup id s.queued)
cancel_active id s (some serial) = (record s { done = serial ∷ s.done }, true)

-- `Server.cancel`
unfoldable pub cancel : Server → String → Server × Bool
unfolding cancel_active
cancel s id = cancel_active id s (lookup id s.active)

-- A deadline passes.
unfoldable pub expire : Server → ℕ → Server
expire s serial = record s { done = serial ∷ s.done }

abbrev pub serials : Dict ℕ → List ℕ
serials [] = []
serials ((id, n) ∷ m) = n ∷ serials m

-- The shutdown of `ListenAndServe`: every active and queued job is cancelled.
unfoldable pub shut_down : Server → Server
shut_down s = record s { shutdown = true; done = serials s.active ++ (serials s.queued ++ s.done) }

-- `Server.isIdle`
unfoldable pub is_idle : Server → Bool
is_idle s = is_empty s.active && is_empty s.queued
