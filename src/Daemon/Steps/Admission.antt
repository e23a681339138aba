-- ===== src/Daemon/Steps/Admission.antt =====
-- internal/daemon/server.go: the invariant over the critical section of `enqueueGenerate` and its `select`.
use text.Mathlib.TextEquality.{eq_iff}
use yllmd.Base.{
  ℕ, ◌+◌, ◌<◌, ◌≡◌, ◌⊎◌, refl, inl, inr, Bool-cases, Bool, false, not, ◌&&◌, String, some, List, [],
  ◌∷◌, ◌++◌, ok, length, length-append, contains, ltb, ◌==◌, string_eq, nat_eq, arith,
}
use yllmd.Base.Dict.{insert, erase}
use yllmd.Protocol.{Request}
use yllmd.Registry.{ResolvedTarget}
use yllmd.Daemon.Queue.{Job, Server, register, drop_job, offer, remove_queued}
use yllmd.Daemon.Steps.{find_job}
use yllmd.Daemon.Steps.Invariant.{
  Holds, TakenIs, OnItsWay, Inv, All-mono, All-erase, All-insert, Holds-append, Holds-last,
  Holds-drop_job,
}

module _ {capacity : ℕ} (s : Server) (inv : Inv capacity s) where
  pub register-Inv :
      (req : Request) (resolved : ResolvedTarget) (t : Server) (position : ℕ)
      → register s req resolved ≡ ok (t, position)
      → Inv capacity t
  unfolding register
  register-Inv req resolved t position h =
      let j : Job = record { serial = s.next_serial; request = req; resolved = resolved } in
      let t' : Server = record s {
        queued = insert req.id s.next_serial s.queued;
        entering = j ∷ s.entering;
        next_serial = s.next_serial + 1;
      } in
      let same : t ≡ t' = ground (arith, h) in
      rw same (record {
        room = inv.room;
        bounded = inv.bounded;
        single = inv.single;
        tracked =
            All-insert (OnItsWay s) (OnItsWay t') req.id s.next_serial (inl (inl (refl, refl)))
              (λ (id, n) w. elim w [ inl e ↦ inl (inr e) | inr r ↦ inr r ]) s.queued inv.tracked;
      })

  -- The job comes into the channel.
  enter-Inv :
      (j : Job)
      → find_job j.serial s.entering ≡ some j
      → length s.jobs < capacity
      → Inv capacity
          (record s { entering = drop_job j.serial s.entering; jobs = s.jobs ++ (j ∷ []) })
  enter-Inv j found room =
      let t : Server = record s {
        entering = drop_job j.serial s.entering;
        jobs = s.jobs ++ (j ∷ []);
      } in
      record {
        room = inv.room;
        bounded = omega (arith, length-append {0} s.jobs (j ∷ []));
        single = inv.single;
        tracked =
            All-mono (OnItsWay s) (OnItsWay t) (λ (id, n) way. moved id n way) s.queued inv.tracked;
      }
    where
      moved :
          (id : String) (n : ℕ)
          → OnItsWay s (id, n)
          → Holds id n (drop_job j.serial s.entering)
            ⊎ (Holds id n (s.jobs ++ (j ∷ [])) ⊎ TakenIs id n s.worker)
      moved id n (inl h) = elim (Holds-drop_job id n j s.entering found h) [
        | inl (same, number) ↦ inr (inl (rw (← same, ← number) (Holds-last j s.jobs)))
        | inr rest ↦ inl rest
      ]
      moved id n (inr (inl h)) = inr (inl (Holds-append id n s.jobs (j ∷ []) h))
      moved id n (inr (inr h)) = inr (inr h)

  -- The job is given up: its entry goes too.
  give_up-Inv :
      (j : Job) (ended : List ℕ)
      → find_job j.serial s.entering ≡ some j
      → Inv capacity (record s {
        entering = drop_job j.serial s.entering;
        queued = erase j.request.id s.queued;
        done = ended;
      })
  give_up-Inv j ended found =
      let t : Server = record s {
        entering = drop_job j.serial s.entering;
        queued = erase j.request.id s.queued;
        done = ended;
      } in
      record {
        room = inv.room;
        bounded = inv.bounded;
        single = inv.single;
        tracked =
            All-erase (OnItsWay s) (OnItsWay t) j.request.id (λ k n other way. kept k n other way)
              s.queued inv.tracked;
      }
    where
      kept :
          (k : String) (n : ℕ)
          → (k == j.request.id) ≡ false
          → OnItsWay s (k, n)
          → Holds k n (drop_job j.serial s.entering) ⊎ (Holds k n s.jobs ⊎ TakenIs k n s.worker)
      kept k n other (inl h) = elim (Holds-drop_job k n j s.entering found h) [
        | inl (same, number) ↦ absurd (ground (arith, eq_iff k j.request.id))
        | inr rest ↦ inl rest
      ]
      kept k n other (inr r) = inr r

  pub offer-Inv :
      (j : Job) (position : ℕ) (timeout_first : Bool)
      → find_job j.serial s.entering ≡ some j
      → Inv capacity (offer s j position timeout_first).0
  unfolding offer remove_queued
  offer-Inv j position timeout_first found =
      let room = ltb (length s.jobs) s.capacity in
      let ended = contains s.done j.serial in
      elim (Bool-cases (room && not (ended && timeout_first))) [
        | inl goes ↦ rw goes (enter-Inv j found (ground (arith, inv.room)))
        | inr stays ↦ rw stays (elim (Bool-cases ended) [
          | inl late ↦ rw late (give_up-Inv j s.done found)
          | inr full ↦ rw full (give_up-Inv j (j.serial ∷ s.done) found)
        ])
      ]
