-- ===== src/ThreadPool/Tasks.antt =====
-- What becomes of the tasks.
use primordialsoup.Base.{
  true-false, ℕ, ◌≡◌, ◌⊎◌, inl, inr, refl, sym, ap, ◌∙◌, Bool, true, false, Option, none, some,
  ◌==◌, arith,
}
use primordialsoup.ThreadPool.System.{
  System, Worker, Phase, absent, created, started, idling, joining, waiting, released, exiting,
  left, deleted, running, becomes, at, put, holds_monitor, Reachable, sets_task, starts, takes,
  wakes,
}
use primordialsoup.ThreadPool.Invariant.{IsFree, IsAt}
use primordialsoup.ThreadPool.Preserves.{none_given}
use primordialsoup.ThreadPool.Steps.{StepsOf, rest, step_of}
use primordialsoup.ThreadPool.Laws.{reachable-IsSystem}

same_test : (w : ℕ) → (w == w) ≡ true
same_test w = ground arith

pub put_self : (w : ℕ) (x : Worker) (workers : ℕ → Worker) → put w x workers w ≡ x
put_self w x workers = rw (same_test w) refl

-- The worker runs the task after some steps of its thread and of callers that set its task.
abbrev pub Runs : System → ℕ → ℕ → Type 0
Runs s w t = (r : System) × StepsOf w s r × ((r.worker w).phase ≡ running t)

waiting-Runs :
    (s : System) (w t : ℕ) → (s.worker w).phase ≡ waiting → (s.worker w).task ≡ some t → Runs s w t
waiting-Runs s w t e f =
    (_, step_of (wakes w t e f) refl rest, ap (λ (x : Worker). x.phase) (put_self w _ s.worker))

started-Runs :
    (s : System) (w t : ℕ) → (s.worker w).phase ≡ started → (s.worker w).task ≡ some t → Runs s w t
started-Runs s w t e f =
    (_, step_of (takes w t e f) refl rest, ap (λ (x : Worker). x.phase) (put_self w _ s.worker))

created-Runs :
    (s : System) (w t : ℕ) → (s.worker w).phase ≡ created → (s.worker w).task ≡ some t → Runs s w t
created-Runs s w t e f =
    let same = put_self w (at (s.worker w) started) s.worker in
    let (r, run, is) =
      started-Runs (becomes s w (at (s.worker w) started) s.pool) w t
        (ap (λ (x : Worker). x.phase) same) (ap (λ (x : Worker). x.task) same ∙ f) in
    (r, step_of (starts w t e f) refl run, is)

free : {c k : Option ℕ} {t : ℕ} → IsFree c k → (c ≡ some t) ⊎ (k ≡ some t) → ⊥
free h (inl e) = none_given h.0 e
free h (inr e) = none_given h.1 e

-- Where a worker is that has a task or is brought one, while the pool is up.
bearing :
    (phase : Phase) (idle all shut : Bool) (c k : Option ℕ) (t : ℕ)
    → IsAt phase idle all shut c k
    → shut ≡ false
    → (c ≡ some t) ⊎ (k ≡ some t)
    → (phase ≡ created) ⊎ (phase ≡ waiting) ⊎ ((phase ≡ started) × (c ≡ none))
bearing absent idle all shut c k t h up e = absurd (free h.2 e)
bearing created idle all shut c k t h up e = inl refl
bearing started idle all shut c k t h up e = inr (inr (refl, h.2))
bearing (running u) idle all shut c k t h up e = absurd (free h.2 e)
bearing idling idle all shut c k t h up e = absurd (free h.2 e)
bearing joining idle all shut c k t h up e = absurd (free h.2 e)
bearing waiting idle all shut c k t h up e = inr (inl refl)
bearing released idle all shut c k t h up e = absurd (free h.2 e)
bearing exiting idle all shut c k t h up e = absurd (true-false (sym h.1 ∙ up))
bearing left idle all shut c k t h up e = absurd (true-false (sym h.1 ∙ up))
bearing deleted idle all shut c k t h up e = absurd (true-false (sym h.1 ∙ up))

-- In a pool that the steps lead to and that is not shutting down, a task that a caller brings to a
-- worker, or that the worker has, can be run by the worker: some steps, each of the thread of the worker
-- or of a caller that sets its task, lead to where it is in `Task::Run` of that task.
pub accepted-Runs :
    {s : System} (reached : Reachable s) (w t : ℕ)
    → s.pool.shutting_down ≡ false
    → ((s.worker w).coming ≡ some t) ⊎ ((s.worker w).task ≡ some t)
    → Runs s w t
accepted-Runs {s} reached w t up (inr e) =
    let p = ((reachable-IsSystem reached).each w).place in
    elim (bearing (s.worker w).phase _ _ _ _ _ t p up (inr e)) [
      | inl q ↦ created-Runs s w t q e
      | inr (inl q) ↦ waiting-Runs s w t q e
      | inr (inr q) ↦ started-Runs s w t q.0 e
    ]
accepted-Runs {s} reached w t up (inl e) =
    let p = ((reachable-IsSystem reached).each w).place in
    let x = record (s.worker w) { task = some t; coming = none } in
    let set = becomes s w x s.pool in
    let same = put_self w x s.worker in
    let there : (set.worker w).task ≡ some t = ap (λ (y : Worker). y.task) same in
    let then_steps : holds_monitor (s.worker w).phase ≡ false → Runs set w t → Runs s w t =
      λ f q. (q.0, step_of (sets_task w t e f) refl q.1, q.2) in
    elim (bearing (s.worker w).phase _ _ _ _ _ t p up (inl e)) [
      | inl q ↦
          then_steps (ap holds_monitor q)
            (created-Runs set w t (ap (λ (y : Worker). y.phase) same ∙ q) there)
      | inr (inl q) ↦
          then_steps (ap holds_monitor q)
            (waiting-Runs set w t (ap (λ (y : Worker). y.phase) same ∙ q) there)
      | inr (inr q) ↦ absurd (none_given q.1 e)
    ]
