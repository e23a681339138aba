-- ===== src/Daemon/Steps/Working.antt =====
-- internal/daemon/server.go: the invariant over the moves of the worker, a cancellation, a timeout and the
-- shutdown.
use mathlib.Core.Path.{subst}
use text.Mathlib.TextEquality.{eq_iff}
use yllmd.Base.{
  ℕ, ◌≡◌, ◌⊎◌, refl, ap, ◌∙◌, inl, inr, Bool-cases, false, String, Option, none, some, List, [],
  ◌∷◌, length, contains, ◌==◌, string_eq, nat_eq, arith,
}
use yllmd.Base.Dict.{Dict, lookup, insert, erase}
use yllmd.Daemon.Queue.{
  Job, Worker, waiting, taken, dequeued, checked, running, Server, work, work_from, take_from,
  check_or_skip, set_active, finish, remove_queued, cancel, cancel_active, cancel_queued, expire,
  shut_down,
}
use yllmd.Daemon.Steps.Invariant.{Holds, TakenIs, OnItsWay, active_of, Inv, All-mono, All-erase}

module _ {capacity : ℕ} (s : Server) (inv : Inv capacity s) where
  take_from-Inv : (js : List Job) → s.jobs ≡ js → s.worker ≡ waiting → Inv capacity (take_from js s)
  unfolding take_from
  take_from-Inv [] e w = inv
  take_from-Inv (j ∷ js) e w =
      let t : Server = record s { jobs = js; worker = taken j } in
      record {
        room = inv.room;
        bounded = omega (arith, inv.bounded, ap length e);
        single = inv.single ∙ ap active_of w;
        tracked =
            All-mono (OnItsWay s) (OnItsWay t) (λ (id, n) way. moved id n way) s.queued inv.tracked;
      }
    where
      moved :
          (id : String) (n : ℕ)
          → OnItsWay s (id, n)
          → Holds id n s.entering ⊎ (Holds id n js ⊎ TakenIs id n (taken j))
      moved id n (inl h) = inl h
      moved id n (inr (inl h)) = elim (subst (Holds id n) e h) [
        | inl same ↦ inr (inr same)
        | inr rest ↦ inr (inl rest)
      ]
      moved id n (inr (inr h)) = absurd (subst (TakenIs id n) w h)

  dequeue-Inv :
      (j : Job)
      → s.worker ≡ taken j
      → Inv capacity (record s { queued = erase j.request.id s.queued; worker = dequeued j })
  dequeue-Inv j w =
      let t : Server = record s { queued = erase j.request.id s.queued; worker = dequeued j } in
      record {
        room = inv.room;
        bounded = inv.bounded;
        single = inv.single ∙ ap active_of w;
        tracked =
            All-erase (OnItsWay s) (OnItsWay t) j.request.id (λ k n other way. kept k n other way)
              s.queued inv.tracked;
      }
    where
      kept :
          (k : String) (n : ℕ)
          → (k == j.request.id) ≡ false
          → OnItsWay s (k, n)
          → Holds k n s.entering ⊎ (Holds k n s.jobs ⊎ TakenIs k n (dequeued j))
      kept k n other (inl h) = inl h
      kept k n other (inr (inl h)) = inr (inl h)
      kept k n other (inr (inr h)) =
          let (same, number) = subst (TakenIs k n) w h in
          absurd (ground (arith, same, eq_iff k j.request.id))

  -- The worker moves on from a job that `queued` does not list.
  settle-Inv :
      (w : Worker) (m : Dict ℕ) (ended : List ℕ)
      → ((id : String) (n : ℕ) → ¬ TakenIs id n s.worker)
      → m ≡ active_of w
      → Inv capacity (record s { worker = w; active = m; done = ended })
  settle-Inv w m ended free shown =
      let t : Server = record s { worker = w; active = m; done = ended } in
      record {
        room = inv.room;
        bounded = inv.bounded;
        single = shown;
        tracked =
            All-mono (OnItsWay s) (OnItsWay t) (λ (id, n) way. moved id n way) s.queued inv.tracked;
      }
    where
      moved :
          (id : String) (n : ℕ)
          → OnItsWay s (id, n)
          → Holds id n s.entering ⊎ (Holds id n s.jobs ⊎ TakenIs id n w)
      moved id n (inl h) = inl h
      moved id n (inr (inl h)) = inr (inl h)
      moved id n (inr (inr h)) = absurd (free id n h)

  check_or_skip-Inv : (j : Job) → s.worker ≡ dequeued j → Inv capacity (check_or_skip j s).0
  unfolding check_or_skip
  check_or_skip-Inv j w =
      let free : (id : String) (n : ℕ) → ¬ TakenIs id n s.worker =
        λ id n h. subst (TakenIs id n) w h in
      let none_active : s.active ≡ [] = inv.single ∙ ap active_of w in
      elim (Bool-cases (contains s.done j.serial)) [
        | inl ended ↦ rw ended (settle-Inv waiting s.active s.done free none_active)
        | inr live ↦ rw live (settle-Inv (checked j) s.active s.done free none_active)
      ]

  set_active-Inv : (j : Job) → s.worker ≡ checked j → Inv capacity (set_active j s)
  unfolding set_active insert
  set_active-Inv j w =
      settle-Inv (running j) (insert j.request.id j.serial s.active) s.done
        (λ id n h. subst (TakenIs id n) w h)
        (ap (insert j.request.id j.serial) (inv.single ∙ ap active_of w))

  finish-Inv : (j : Job) → s.worker ≡ running j → Inv capacity (finish j s)
  unfolding finish erase
  finish-Inv j w =
      settle-Inv waiting (erase j.request.id s.active) (j.serial ∷ s.done)
        (λ id n h. subst (TakenIs id n) w h)
        (ap (erase j.request.id) (inv.single ∙ ap active_of w)
          ∙ ground (arith, eq_iff j.request.id j.request.id))

  work_from-Inv : (w : Worker) → s.worker ≡ w → Inv capacity (work_from w s).0
  unfolding work_from remove_queued
  work_from-Inv waiting e = take_from-Inv s.jobs refl e
  work_from-Inv (taken j) e = dequeue-Inv j e
  work_from-Inv (dequeued j) e = check_or_skip-Inv j e
  work_from-Inv (checked j) e = set_active-Inv j e
  work_from-Inv (running j) e = finish-Inv j e

  pub work-Inv : Inv capacity (work s).0
  unfolding work
  work-Inv = work_from-Inv s.worker refl

  cancel_queued-Inv : (id : String) (o : Option ℕ) → Inv capacity (cancel_queued id s o).0
  unfolding cancel_queued
  cancel_queued-Inv id none = inv
  cancel_queued-Inv id (some serial) = record {
    room = inv.room;
    bounded = inv.bounded;
    single = inv.single;
    tracked = All-erase (OnItsWay s) (OnItsWay s) id (λ k n other way. way) s.queued inv.tracked;
  }

  cancel_active-Inv : (id : String) (o : Option ℕ) → Inv capacity (cancel_active id s o).0
  unfolding cancel_active
  cancel_active-Inv id none = cancel_queued-Inv id (lookup id s.queued)
  cancel_active-Inv id (some serial) = record {
    room = inv.room;
    bounded = inv.bounded;
    single = inv.single;
    tracked = inv.tracked;
  }

  pub cancel-Inv : (id : String) → Inv capacity (cancel s id).0
  unfolding cancel
  cancel-Inv id = cancel_active-Inv id (lookup id s.active)

  pub expire-Inv : (serial : ℕ) → Inv capacity (expire s serial)
  unfolding expire
  expire-Inv serial = record {
    room = inv.room;
    bounded = inv.bounded;
    single = inv.single;
    tracked = inv.tracked;
  }

  pub shut_down-Inv : Inv capacity (shut_down s)
  unfolding shut_down
  shut_down-Inv = record {
    room = inv.room;
    bounded = inv.bounded;
    single = inv.single;
    tracked = inv.tracked;
  }
