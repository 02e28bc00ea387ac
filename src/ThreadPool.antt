-- ===== src/ThreadPool.antt =====
-- `vm/thread_pool.cc`: the pool that `mutex_` protects, and what each section that holds it does. A
-- worker is a number, and the lists that run through the workers are lists of these. The counts are
-- `uint64_t`.
pub mod Lists
pub mod System
pub mod Steps
pub mod Invariant
pub mod Preserves
pub mod Run
pub mod Sections
pub mod Places
pub mod ListSteps
pub mod IdleSteps
pub mod Exits
pub mod Laws
pub mod Tasks
pub mod Late
mod Tests
use primordialsoup.Base.{
  ℕ, ◌+◌, ◌-◌, ◌*◌, Bool, true, false, Option, none, some, List, [], ◌∷◌, ◌==◌, if◌then◌else◌, u64,
  sub64,
}

-- The fields of `ThreadPool`.
pub record Pool : Type 0 where
  pub shutting_down : Bool
  pub all_workers : List ℕ
  pub idle_workers : List ℕ
  pub count_started : ℕ
  pub count_stopped : ℕ
  pub count_running : ℕ
  pub count_idle : ℕ
  pub shutting_down_workers : List ℕ
  pub join_list : List ℕ

abbrev pub new_pool : Pool
new_pool = record {
  shutting_down = false;
  all_workers = [];
  idle_workers = [];
  count_started = 0;
  count_stopped = 0;
  count_running = 0;
  count_idle = 0;
  shutting_down_workers = [];
  join_list = [];
}

-- `IsIdle`, on the list of idle workers.
abbrev pub has : ℕ → List ℕ → Bool
has w [] = false
has w (x ∷ xs) = if x == w then true else has w xs

-- `RemoveWorkerFromIdleList`, `RemoveWorkerFromAllList` and `RemoveWorkerFromShutdownList`, each on
-- its list. `owned_` is that the list of all workers has the worker; the `done_` that the removal of
-- the first of all workers sets is a field of the worker, which the step of its thread sets.
unfoldable pub remove_worker : ℕ → List ℕ → Bool × List ℕ
remove_worker w [] = (false, [])
remove_worker w (x ∷ xs) =
    let (found, rest) = remove_worker w xs in if x == w then (true, xs) else (found, x ∷ rest)

-- What `Run` does with the mutex: the worker, whether it is new, and the pool. `fresh` is the worker
-- that is allocated.
unfoldable pub run_locked : ℕ → Pool → Option (ℕ × Bool × Pool)
run_locked fresh p = if p.shutting_down then none else first_idle p.idle_workers
  where
    first_idle : List ℕ → Option (ℕ × Bool × Pool)
    first_idle [] = some (
      fresh,
      true,
      record p {
        count_started = u64 (p.count_started + 1);
        all_workers = fresh ∷ p.all_workers;
        count_running = u64 (p.count_running + 1);
      },
    )
    first_idle (w ∷ ws) = some (
      w,
      false,
      record p {
        idle_workers = ws;
        count_idle = sub64 p.count_idle 1;
        count_running = u64 (p.count_running + 1);
      },
    )

-- `Shutdown` with the mutex: the workers that it is to stop.
abbrev pub stop_all : List ℕ → ℕ → ℕ
stop_all [] stopped = stopped
stop_all (w ∷ ws) stopped = stop_all ws (u64 (stopped + 1))

unfoldable pub shutdown_locked : Pool → List ℕ × Pool
shutdown_locked p = (
  p.all_workers,
  record p {
    shutting_down = true;
    all_workers = [];
    idle_workers = [];
    count_stopped = stop_all p.all_workers p.count_stopped;
    count_idle = 0;
    count_running = 0;
  },
)

unfoldable pub set_idle_locked : ℕ → Pool → Pool
set_idle_locked w p = record p {
  idle_workers = w ∷ p.idle_workers;
  count_idle = u64 (p.count_idle + 1);
  count_running = sub64 p.count_running 1;
}

-- `SetIdleAndReapExited`, up to the first release of the mutex: the threads that are to be joined
-- before the rest, if any are.
abbrev pub reap_first : ℕ → Pool → List ℕ → List ℕ × Pool
reap_first w p [] = ([], set_idle_locked w p)
reap_first w p (t ∷ ts) = (t ∷ ts, record p { join_list = [] })

unfoldable pub set_idle_or_reap : ℕ → Pool → List ℕ × Pool
set_idle_or_reap w p = if p.shutting_down then ([], p) else reap_first w p p.join_list

-- The rest.
unfoldable pub set_idle_reaped : ℕ → Pool → Pool
set_idle_reaped w p = if p.shutting_down then p else set_idle_locked w p

-- `ReleaseIdleWorker`. The thread of a worker has its number.
abbrev pub after_removal : ℕ → Pool → Bool × List ℕ → Bool × Pool
after_removal w p (false, idle) = (false, p)
after_removal w p (true, idle) = (
  true,
  record p {
    idle_workers = idle;
    all_workers = (remove_worker w p.all_workers).1;
    join_list = w ∷ p.join_list;
    count_stopped = u64 (p.count_stopped + 1);
    count_idle = sub64 p.count_idle 1;
  },
)

unfoldable pub release_idle_worker : ℕ → Pool → Bool × Pool
release_idle_worker w p =
    if p.shutting_down then (false, p) else after_removal w p (remove_worker w p.idle_workers)

-- `AddWorkerToShutdownList`, and `RemoveWorkerFromShutdownList` as an exiting worker calls it.
abbrev pub add_to_shutdown_list : ℕ → Pool → Pool
add_to_shutdown_list w p = record p { shutting_down_workers = w ∷ p.shutting_down_workers }

abbrev pub remove_from_shutdown_list : ℕ → Pool → Pool
remove_from_shutdown_list w p = record p {
  shutting_down_workers = (remove_worker w p.shutting_down_workers).1;
}

-- `JoinList::AddLocked`, as a worker that is shut down calls it.
abbrev pub add_to_join_list : ℕ → Pool → Pool
add_to_join_list w p = record p { join_list = w ∷ p.join_list }
