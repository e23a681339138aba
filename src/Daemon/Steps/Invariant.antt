-- ===== src/Daemon/Steps/Invariant.antt =====
-- internal/daemon/server.go: the invariant of the daemon between two steps, and lemmas on its lists.
use yllmd.Base.{
  ℕ, ◌≤◌, ◌≡◌, ◌⊎◌, refl, inl, inr, Bool-cases, false, String, some, List, [], ◌∷◌, ◌++◌, length,
  All, ◌==◌, string_eq, nat_eq, arith,
}
use yllmd.Base.Dict.{Dict, insert, erase}
use yllmd.Daemon.Queue.{Job, Worker, taken, running, Server, drop_job}
use yllmd.Daemon.Steps.{find_job}

-- Some job of the list has this id and this serial number.
abbrev pub Holds : String → ℕ → List Job → Type 0
Holds id n [] = ⊥
Holds id n (j ∷ js) = ((j.request.id ≡ id) × (j.serial ≡ n)) ⊎ Holds id n js

abbrev pub TakenIs : String → ℕ → Worker → Type 0
TakenIs id n (taken j) = (j.request.id ≡ id) × (j.serial ≡ n)
TakenIs id n _ = ⊥

-- The job of an entry of `queued` is still on its way to the worker.
abbrev pub OnItsWay : Server → String × ℕ → Type 0
OnItsWay s (id, n) = Holds id n s.entering ⊎ (Holds id n s.jobs ⊎ TakenIs id n s.worker)

abbrev pub active_of : Worker → Dict ℕ
active_of (running j) = (j.request.id, j.serial) ∷ []
active_of _ = []

pub record Inv (capacity : ℕ) (s : Server) : Type 0 where
  pub room : s.capacity ≡ capacity
  pub bounded : length s.jobs ≤ capacity
  pub single : s.active ≡ active_of s.worker
  pub tracked : All (OnItsWay s) s.queued

module _ (P Q : String × ℕ → Type 0) where
  pub All-mono : ((e : String × ℕ) → P e → Q e) → (m : Dict ℕ) → All P m → All Q m
  All-mono f [] h = tt
  All-mono f (e ∷ m) h = (f e h.0, All-mono f m h.1)

  pub All-erase :
      (id : String)
      → ((k : String) (n : ℕ) → (k == id) ≡ false → P (k, n) → Q (k, n))
      → (m : Dict ℕ) → All P m
      → All Q (erase id m)
  unfolding erase
  All-erase id f [] h = tt
  All-erase id f ((k, n) ∷ m) h = elim (Bool-cases (k == id)) [
    | inl same ↦ rw same (All-erase id f m h.1)
    | inr other ↦ rw other (f k n other h.0, All-erase id f m h.1)
  ]

  pub All-insert :
      (id : String) (v : ℕ)
      → Q (id, v)
      → ((e : String × ℕ) → P e → Q e)
      → (m : Dict ℕ) → All P m
      → All Q (insert id v m)
  unfolding insert
  All-insert id v q f [] h = (q, tt)
  All-insert id v q f ((k, n) ∷ m) h = elim (Bool-cases (k == id)) [
    | inl same ↦ rw same (q, All-mono f m h.1)
    | inr other ↦ rw other (f (k, n) h.0, All-insert id v q f m h.1)
  ]

pub Holds-append : (id : String) (n : ℕ) (js ks : List Job) → Holds id n js → Holds id n (js ++ ks)
Holds-append id n (j ∷ js) ks (inl e) = inl e
Holds-append id n (j ∷ js) ks (inr h) = inr (Holds-append id n js ks h)
Holds-append id n [] ks h = absurd h

pub Holds-last : (j : Job) (js : List Job) → Holds j.request.id j.serial (js ++ (j ∷ []))
Holds-last j [] = inl (refl, refl)
Holds-last j (k ∷ js) = inr (Holds-last j js)

-- Taking one job off leaves the others.
pub Holds-drop_job :
    (id : String) (n : ℕ) (j : Job) (js : List Job)
    → find_job j.serial js ≡ some j
    → Holds id n js
    → ((j.request.id ≡ id) × (j.serial ≡ n)) ⊎ Holds id n (drop_job j.serial js)
unfolding find_job drop_job
Holds-drop_job id n j [] f h = absurd h
Holds-drop_job id n j (k ∷ js) f h = ground (arith, Holds-drop_job id n j js)
