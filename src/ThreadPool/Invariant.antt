-- ===== src/ThreadPool/Invariant.antt =====
-- What holds of the pool and its workers between two steps.
use mathlib.Core.Path.{subst}
use primordialsoup.Base.{
  ℕ, ◌+◌, ◌≤◌, ◌≡◌, ◌≢◌, refl, sym, ◌∙◌, Bool, true, false, Option, none, ◌⊎◌, [], ◌==◌, length,
  u64, arith, ℕ_discrete,
}
use primordialsoup.ThreadPool.{Pool, has}
use primordialsoup.ThreadPool.Lists.{NoneTwice}
use primordialsoup.ThreadPool.System.{
  System, Worker, Phase, absent, created, started, idling, joining, waiting, released, exiting,
  left, deleted, running, put, becomes,
}

-- A task is there, in the hands of a caller or in the slot of the worker, but not in both.
abbrev pub Bears : Option ℕ → Option ℕ → Type 0
Bears coming task = ((coming ≢ none) × (task ≡ none)) ⊎ ((coming ≡ none) × (task ≢ none))

abbrev pub IsFree : Option ℕ → Option ℕ → Type 0
IsFree coming task = (coming ≡ none) × (task ≡ none)

abbrev pub Listed : Bool → Bool → Type 0
Listed all shut = shut ≡ false → all ≡ true

-- A worker that waits is idle, or is given a task, or is about to be told that the pool shuts down.
abbrev pub Waits : Bool → Bool → Option ℕ → Option ℕ → Type 0
Waits idle shut coming task =
    ((idle ≡ true) × IsFree coming task)
    ⊎ ((idle ≡ false) × Bears coming task)
    ⊎ ((idle ≡ false) × (shut ≡ true) × IsFree coming task)

-- In the phase, for a worker that is in the lists of the pool or not.
abbrev pub IsAt : Phase → Bool → Bool → Bool → Option ℕ → Option ℕ → Type 0
IsAt absent idle all shut coming task = (idle ≡ false) × (all ≡ false) × IsFree coming task
IsAt created idle all shut coming task = (idle ≡ false) × Listed all shut × Bears coming task
IsAt started idle all shut coming task =
    (idle ≡ false) × Listed all shut × (coming ≡ none) × (task ≢ none)
IsAt (running t) idle all shut coming task = (idle ≡ false) × Listed all shut × IsFree coming task
IsAt idling idle all shut coming task = (idle ≡ false) × Listed all shut × IsFree coming task
IsAt joining idle all shut coming task = (idle ≡ false) × Listed all shut × IsFree coming task
IsAt waiting idle all shut coming task = Listed all shut × Waits idle shut coming task
IsAt released idle all shut coming task = (idle ≡ false) × (all ≡ false) × IsFree coming task
IsAt exiting idle all shut coming task =
    (idle ≡ false) × (shut ≡ true) × ((coming ≡ none) ⊎ (task ≡ none))
IsAt left idle all shut coming task =
    (idle ≡ false) × (shut ≡ true) × ((coming ≡ none) ⊎ (task ≡ none))
IsAt deleted idle all shut coming task =
    (idle ≡ false) × (shut ≡ true) × ((coming ≡ none) ⊎ (task ≡ none))

-- A worker is marked as done when the pool shuts down, or when it is released.
abbrev pub MayBeDone : Phase → Bool → Type 0
MayBeDone released shut = Unit {0}
MayBeDone phase shut = shut ≡ true

pub record IsWorker (idle all shut : Bool) (x : Worker) : Type 0 where
  pub stopped : x.done ≡ true → MayBeDone x.phase shut
  pub place : IsAt x.phase idle all shut x.coming x.task

-- The lists and the counts.
pub record IsPool (p : Pool) : Type 0 where
  pub all_set : NoneTwice p.all_workers
  pub idle_set : NoneTwice p.idle_workers
  pub started_is : p.count_started ≡ u64 (p.count_stopped + length p.all_workers)
  pub idle_is : p.count_idle ≡ u64 (length p.idle_workers)
  pub running_is : u64 (p.count_running + p.count_idle) ≡ u64 (length p.all_workers)
  pub stopped_is : p.count_stopped ≡ u64 p.count_stopped
  pub shut : p.shutting_down ≡ true → (p.all_workers ≡ []) × (p.idle_workers ≡ [])

pub record IsSystem (s : System) : Type 0 where
  pub pool : IsPool s.pool
  pub stopping : (s.pool.shutting_down ≡ true) ⊎ (s.to_stop ≡ [])
  pub unused : (v : ℕ) → s.fresh ≤ v → (s.worker v).phase ≡ absent
  pub each :
      (v : ℕ)
      → IsWorker
          (has v s.pool.idle_workers)
          (has v s.pool.all_workers)
          s.pool.shutting_down
          (s.worker v)

put_test : (v w : ℕ) → v ≡ w → (v == w) ≡ true
put_test v w h = ground arith

put_other : (v w : ℕ) → w ≢ v → (v == w) ≡ false
put_other v w h = ground arith

pub put-All :
    (P : ℕ → Worker → Type 0) (w : ℕ) (x : Worker) (workers : ℕ → Worker)
    → P w x
    → ((v : ℕ) → w ≢ v → P v (workers v))
    → (v : ℕ) → P v (put w x workers v)
put-All P w x workers h k v = elim (ℕ_discrete w v) [
  | yes e ↦ rw (put_test v w (sym e)) (subst (λ (u : ℕ). P u x) e h)
  | no d ↦ rw (put_other v w d) (k v d)
]

-- A worker that is at work has been allocated.
pub in_use :
    {s : System} (h : IsSystem s) (w : ℕ) (phase : Phase)
    → (s.worker w).phase ≡ phase
    → phase ≢ absent
    → s.fresh ≤ w
    → ⊥
in_use h w phase e d l = d (sym e ∙ h.unused w l)

-- A step of one worker, which leaves the others in the lists alone.
pub becomes-IsSystem :
    {s : System} (h : IsSystem s) (w : ℕ) (x : Worker) (p : Pool)
    → IsPool p
    → p.shutting_down ≡ s.pool.shutting_down
    → ((v : ℕ) → w ≢ v → has v p.idle_workers ≡ has v s.pool.idle_workers)
    → ((v : ℕ) → w ≢ v → has v p.all_workers ≡ has v s.pool.all_workers)
    → IsWorker (has w p.idle_workers) (has w p.all_workers) p.shutting_down x
    → (s.fresh ≤ w → x.phase ≡ absent)
    → IsSystem (becomes s w x p)
becomes-IsSystem {s} h w x p pool same idle all this used = record {
  pool = pool;
  stopping = rw same (h.stopping);
  unused = put-All (λ v y. s.fresh ≤ v → y.phase ≡ absent) w x s.worker used (λ v d. h.unused v);
  each =
      put-All (λ v y. IsWorker (has v p.idle_workers) (has v p.all_workers) p.shutting_down y) w x
        s.worker this (λ v d. rw (idle v d, all v d, same) (h.each v));
}

-- A step of one worker that leaves the pool alone.
pub worker-IsSystem :
    {s : System} (h : IsSystem s) (w : ℕ) (x : Worker) (phase : Phase)
    → (s.worker w).phase ≡ phase
    → phase ≢ absent
    → IsWorker (has w s.pool.idle_workers) (has w s.pool.all_workers) s.pool.shutting_down x
    → IsSystem (becomes s w x s.pool)
worker-IsSystem {s} h w x phase e d this =
    becomes-IsSystem h w x s.pool h.pool refl (λ v f. refl) (λ v f. refl) this
      (λ l. absurd (in_use h w phase e d l))
