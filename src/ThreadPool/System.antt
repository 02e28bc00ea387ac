-- ===== src/ThreadPool/System.antt =====
-- The pool with its workers, as the steps of the threads between two acquisitions of a lock:
-- `Worker::Main` and `Worker::Loop`, the callers of `Run`, and `Shutdown`, which a thread calls that is
-- no worker. A worker holds its `monitor_` from one step to the next where it is `idling` or `joining`;
-- `SetTask`, and `Shutdown` to mark it as done, wait until it does not.
use primordialsoup.Base.{
  ℕ, suc, ◌≡◌, Bool, true, false, Option, none, some, List, [], ◌∷◌, ◌==◌, if◌then◌else◌,
}
use primordialsoup.ThreadPool.{
  Pool, new_pool, run_locked, shutdown_locked, set_idle_or_reap, set_idle_reaped,
  release_idle_worker, add_to_shutdown_list, remove_from_shutdown_list, add_to_join_list,
}

-- Where the thread of a worker is: not allocated; allocated by `Run`, its thread not started; before
-- `Loop` takes the task; in `Task::Run`; before `SetIdleAndReapExited`; in `JoinList::Join`; in
-- `WaitUntilNanos`; after `Loop` has returned true, or false; and after `delete worker`.
pub data Phase : Type 0 where
  absent created started idling joining waiting released exiting left deleted : Phase
  running : ℕ → Phase

-- A worker, and the task that a caller of `Run` is about to set.
pub record Worker : Type 0 where
  pub task : Option ℕ
  pub done : Bool
  pub phase : Phase
  pub coming : Option ℕ

pub record System : Type 0 where
  pub pool : Pool
  pub worker : ℕ → Worker
  pub fresh : ℕ
  pub to_stop : List ℕ

abbrev pub new_worker : Worker
new_worker = record { task = none; done = false; phase = absent; coming = none }

abbrev pub initial : System
initial = record { pool = new_pool; worker = λ w. new_worker; fresh = 0; to_stop = [] }

abbrev pub put : ℕ → Worker → (ℕ → Worker) → ℕ → Worker
put w x workers v = if v == w then x else workers v

-- A worker changes, and with it the pool.
abbrev pub becomes : System → ℕ → Worker → Pool → System
becomes s w x p = record s { pool = p; worker = put w x s.worker }

abbrev pub at : Worker → Phase → Worker
at x phase = record x { phase = phase }

-- Between two steps, whether the worker holds its monitor.
abbrev pub holds_monitor : Phase → Bool
holds_monitor idling = true
holds_monitor joining = true
holds_monitor phase = false

abbrev pub is_first : ℕ → List ℕ → Bool
is_first w [] = false
is_first w (v ∷ vs) = v == w

-- A worker whose wait has timed out. Where it goes, `RemoveWorkerFromAllList` marks it as done if it is
-- the first of all workers.
abbrev pub after_wait : ℕ → List ℕ → Worker → Bool → Worker
after_wait w all x true = record x {
  phase = released;
  done = if is_first w all then true else x.done;
}
after_wait w all x false = at x waiting

abbrev pub is_nil : List ℕ → Bool
is_nil [] = true
is_nil (t ∷ ts) = false

pub data Step : System → System → Type 0 where
  runs_new :
      {s : System} {p : Pool} (t : ℕ)
      → run_locked s.fresh s.pool ≡ some (s.fresh, true, p)
      → Step s
          (record (becomes s s.fresh
            (record (s.worker s.fresh) { phase = created; coming = some t })
            p) { fresh = suc s.fresh })
  runs_idle :
      {s : System} {p : Pool} (w t : ℕ)
      → run_locked s.fresh s.pool ≡ some (w, false, p)
      → Step s (becomes s w (record (s.worker w) { coming = some t }) p)
  sets_task :
      {s : System} (w t : ℕ)
      → (s.worker w).coming ≡ some t
      → holds_monitor (s.worker w).phase ≡ false
      → Step s (becomes s w (record (s.worker w) { task = some t; coming = none }) s.pool)
  starts :
      {s : System} (w t : ℕ)
      → (s.worker w).phase ≡ created
      → (s.worker w).task ≡ some t
      → Step s (becomes s w (at (s.worker w) started) s.pool)
  takes :
      {s : System} (w t : ℕ)
      → (s.worker w).phase ≡ started
      → (s.worker w).task ≡ some t
      → Step s (becomes s w (record (s.worker w) { task = none; phase = running t }) s.pool)
  finishes :
      {s : System} (w t : ℕ)
      → (s.worker w).phase ≡ running t
      → Step s
          (becomes s w (at (s.worker w) (if (s.worker w).done then exiting else idling)) s.pool)
  idles :
      {s : System} (w : ℕ)
      → (s.worker w).phase ≡ idling
      → Step s (
          becomes s w
            (at (s.worker w) (if is_nil (set_idle_or_reap w s.pool).0 then waiting else joining))
            (set_idle_or_reap w s.pool).1)
  reaps :
      {s : System} (w : ℕ)
      → (s.worker w).phase ≡ joining
      → Step s (becomes s w (at (s.worker w) waiting) (set_idle_reaped w s.pool))
  wakes :
      {s : System} (w t : ℕ)
      → (s.worker w).phase ≡ waiting
      → (s.worker w).task ≡ some t
      → Step s (becomes s w (record (s.worker w) { task = none; phase = running t }) s.pool)
  quits :
      {s : System} (w : ℕ)
      → (s.worker w).phase ≡ waiting
      → (s.worker w).task ≡ none
      → (s.worker w).done ≡ true
      → Step s (becomes s w (at (s.worker w) exiting) s.pool)
  times_out :
      {s : System} (w : ℕ)
      → (s.worker w).phase ≡ waiting
      → (s.worker w).task ≡ none
      → (s.worker w).done ≡ false
      → Step s (
          becomes s w
            (after_wait w s.pool.all_workers (s.worker w) (release_idle_worker w s.pool).0)
            (release_idle_worker w s.pool).1)
  shuts_down :
      {s : System}
      → s.pool.shutting_down ≡ false
      → Step s
          (record s { pool = (shutdown_locked s.pool).1; to_stop = (shutdown_locked s.pool).0 })
  stops :
      {s : System} (w : ℕ) (ws : List ℕ)
      → s.to_stop ≡ w ∷ ws
      → holds_monitor (s.worker w).phase ≡ false
      → Step s
          (record (becomes s w
            (record (s.worker w) { done = true })
            (add_to_shutdown_list w s.pool)) { to_stop = ws })
  exits :
      {s : System} (w : ℕ)
      → (s.worker w).phase ≡ exiting
      → Step s (becomes s w (at (s.worker w) left) (add_to_join_list w s.pool))
  leaves :
      {s : System} (w : ℕ)
      → (s.worker w).phase ≡ left
      → s.to_stop ≡ []
      → Step s (becomes s w (at (s.worker w) deleted) (remove_from_shutdown_list w s.pool))
  joins :
      {s : System}
      → s.pool.shutting_down ≡ true
      → s.to_stop ≡ []
      → s.pool.shutting_down_workers ≡ []
      → Step s (record s { pool = record (s.pool) { join_list = [] } })

-- The systems that the steps lead to from the constructor.
pub data Reachable : System → Type 0 where
  start : Reachable initial
  next : {s r : System} → Reachable s → Step s r → Reachable r
