-- ===== src/ThreadPool/Laws.antt =====
-- What holds of every system that the steps lead to.
use primordialsoup.Base.{
  true-false, ℕ, ◌≡◌, ◌⊎◌, inl, inr, refl, sym, ◌∙◌, Bool, true, false, none, some, ◌||◌,
  Bool-cases,
}
use primordialsoup.ThreadPool.{has}
use primordialsoup.ThreadPool.System.{
  System, idling, joining, waiting, initial, Step, Reachable, start, next, runs_new, runs_idle,
  sets_task, starts, takes, finishes, idles, reaps, wakes, quits, times_out, shuts_down, stops,
  exits, leaves, joins,
}
use primordialsoup.ThreadPool.Invariant.{IsAt, IsSystem}
use primordialsoup.ThreadPool.Preserves.{
  idle_shut, slot_free, sets_task-IsSystem, starts-IsSystem, takes-IsSystem, finishes-IsSystem,
  wakes-IsSystem, quits-IsSystem,
}
use primordialsoup.ThreadPool.Places.{idle_place}
use primordialsoup.ThreadPool.ListSteps.{runs_new-IsSystem, runs_idle-IsSystem}
use primordialsoup.ThreadPool.IdleSteps.{idles-IsSystem, reaps-IsSystem, times_out-IsSystem}
use primordialsoup.ThreadPool.Exits.{
  shuts_down-IsSystem, stops-IsSystem, exits-IsSystem, leaves-IsSystem, joins-IsSystem,
}

initial-IsSystem : IsSystem initial
initial-IsSystem = record {
  pool = record {
    all_set = tt;
    idle_set = tt;
    started_is = refl;
    idle_is = refl;
    running_is = refl;
    stopped_is = refl;
    shut = λ e. (refl, refl);
  };
  stopping = inr refl;
  unused = λ v l. refl;
  each = λ v. record {
    stopped = λ e. absurd (true-false (sym e));
    place = (refl, refl, (refl, refl));
  };
}

Step-IsSystem : {s r : System} → Step s r → IsSystem s → IsSystem r
Step-IsSystem (runs_new {p = p} t e) h = runs_new-IsSystem h t p e
Step-IsSystem (runs_idle {p = p} w t e) h = runs_idle-IsSystem h w t p e
Step-IsSystem (sets_task w t e f) h = sets_task-IsSystem h w t e
Step-IsSystem (starts w t e f) h = starts-IsSystem h w t e f
Step-IsSystem (takes w t e f) h = takes-IsSystem h w t e
Step-IsSystem (finishes w t e) h = finishes-IsSystem h w t e
Step-IsSystem (idles w e) h = idles-IsSystem h w e
Step-IsSystem (reaps w e) h = reaps-IsSystem h w e
Step-IsSystem (wakes w t e f) h = wakes-IsSystem h w t e f
Step-IsSystem (quits w e f d) h = quits-IsSystem h w e f d
Step-IsSystem (times_out w e f d) h = times_out-IsSystem h w e
Step-IsSystem (shuts_down e) h = shuts_down-IsSystem h e
Step-IsSystem (stops w ws e f) h = stops-IsSystem h w ws e
Step-IsSystem (exits w e) h = exits-IsSystem h w e
Step-IsSystem (leaves w e f) h = leaves-IsSystem h w e
Step-IsSystem (joins e f g) h = joins-IsSystem h

-- In every system that the steps lead to, neither the list of all workers nor that of the idle ones
-- holds a worker twice, the workers that are started but not stopped are those of the pool, the idle ones
-- are counted, and with the running ones make all; each worker is in these two lists, bears a task or is
-- marked as done only as its place in the code allows.
pub reachable-IsSystem : {s : System} → Reachable s → IsSystem s
reachable-IsSystem start = initial-IsSystem
reachable-IsSystem (next h step) = Step-IsSystem step (reachable-IsSystem h)

listed_or_shut : (all shut : Bool) → (shut ≡ false → all ≡ true) → (all || shut) ≡ true
listed_or_shut true shut h = refl
listed_or_shut false true h = refl
listed_or_shut false false h = h refl

module _ {s : System} (reached : Reachable s) (w : ℕ) where
  place :
      IsAt
        (s.worker w).phase
        (has w s.pool.idle_workers)
        (has w s.pool.all_workers)
        s.pool.shutting_down
        (s.worker w).coming
        (s.worker w).task
  place = ((reachable-IsSystem reached).each w).place

  -- A worker that a caller of `Run` brings a task has none, as `SetTask` asserts.
  pub set_task_assertion : (t : ℕ) → (s.worker w).coming ≡ some t → (s.worker w).task ≡ none
  set_task_assertion t e = slot_free (s.worker w).phase _ _ _ _ _ place e

  -- An idle worker is one of the pool, which is not shutting down, as `ReleaseIdleWorker` asserts, and
  -- it waits without a task.
  pub release_assertion :
      has w s.pool.idle_workers ≡ true
      → (has w s.pool.all_workers ≡ true)
        × (s.pool.shutting_down ≡ false)
        × ((s.worker w).phase ≡ waiting)
        × ((s.worker w).task ≡ none)
  release_assertion e =
      let (waits, listed, free) = idle_place (s.worker w).phase _ _ _ _ _ place e in
      let up = elim (Bool-cases s.pool.shutting_down) as (λ c. s.pool.shutting_down ≡ false) [
        | inl f ↦ absurd (true-false (sym e ∙ idle_shut (reachable-IsSystem reached).pool w f))
        | inr f ↦ f
      ] in
      (listed up, up, waits, free.1)

  -- A worker that is about to be made idle, before or after it has joined others, is not idle, and is
  -- one of the pool if that is not shutting down, as `SetIdleLocked` asserts.
  pub set_idle_assertion :
      ((s.worker w).phase ≡ idling) ⊎ ((s.worker w).phase ≡ joining)
      → (has w s.pool.idle_workers ≡ false)
        × ((has w s.pool.all_workers || s.pool.shutting_down) ≡ true)
  set_idle_assertion (inl e) = let p = rw e at place in (p.0, listed_or_shut _ _ p.1)
  set_idle_assertion (inr e) = let p = rw e at place in (p.0, listed_or_shut _ _ p.1)
