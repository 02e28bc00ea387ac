-- ===== src/ThreadPool/Tests.antt =====
-- The pool at concrete steps.
use primordialsoup.Base.{◌≡◌, refl, true, false, some, none, [], inl}
use primordialsoup.ThreadPool.{has, run_locked, set_idle_or_reap, set_idle_locked}
use primordialsoup.ThreadPool.System.{
  System, Reachable, start, next, runs_new, runs_idle, sets_task, starts, takes, finishes, idles,
  waiting, deleted,
}
use primordialsoup.ThreadPool.Steps.{Steps}
use primordialsoup.ThreadPool.Invariant.{IsSystem}
use primordialsoup.ThreadPool.Laws.{reachable-IsSystem, release_assertion}
use primordialsoup.ThreadPool.Tasks.{Runs, accepted-Runs}
use primordialsoup.ThreadPool.Late.{late_task}

-- The first worker runs a task and becomes idle.
has_run : (s : System) × Reachable s
unfolding run_locked set_idle_or_reap
has_run = (
  _,
  next
      (next
        (next
          (next (next (next start (runs_new 7 refl)) (sets_task 0 7 refl refl))
            (starts 0 7 refl refl))
          (takes 0 7 refl refl))
        (finishes 0 7 refl))
      (idles 0 refl),
)

-- A caller of `Run` has another for it.
is_given : (s : System) × Reachable s
unfolding has_run run_locked set_idle_or_reap set_idle_locked
is_given = (_, next has_run.1 (runs_idle 0 8 refl))

reachable-IsSystem_example : IsSystem has_run.0
reachable-IsSystem_example = reachable-IsSystem has_run.1

release_assertion_example :
    (has 0 has_run.0.pool.all_workers ≡ true)
    × (has_run.0.pool.shutting_down ≡ false)
    × ((has_run.0.worker 0).phase ≡ waiting)
    × ((has_run.0.worker 0).task ≡ none)
unfolding has_run run_locked set_idle_or_reap set_idle_locked
release_assertion_example = release_assertion has_run.1 0 refl

accepted-Runs_example : Runs is_given.0 0 8
unfolding is_given has_run run_locked set_idle_or_reap set_idle_locked
accepted-Runs_example = accepted-Runs is_given.1 0 8 refl (inl refl)

late_task_example :
    (r : System) × Steps has_run.0 r
    × ((r.worker 0).phase ≡ deleted)
    × ((r.worker 0).coming ≡ some 8)
unfolding has_run run_locked set_idle_or_reap set_idle_locked
late_task_example = late_task has_run.0 0 [] 8 has_run.1 refl refl
