-- ===== src/ThreadPool/Late.antt =====
-- A task that comes while the pool shuts down.
use mathlib.Core.Path.{subst}
use primordialsoup.Base.{
  true-false, ℕ, ◌≡◌, ◌≢◌, ◌⊎◌, inl, inr, refl, sym, ap, ◌∙◌, true, false, none, some, List, [],
  ◌∷◌, ◌==◌, arith, ℕ_discrete, if◌then◌else◌,
}
use primordialsoup.ThreadPool.{
  Pool, has, shutdown_locked, set_idle_reaped, add_to_shutdown_list, add_to_join_list,
}
use primordialsoup.ThreadPool.Lists.{has_self, has_other}
use primordialsoup.ThreadPool.System.{
  System, Worker, Phase, absent, created, started, running, idling, joining, released, waiting,
  exiting, left, deleted, becomes, at, put, is_nil, holds_monitor, Step, Reachable, runs_idle,
  shuts_down, stops, quits, exits, leaves, idles, reaps,
}
use primordialsoup.ThreadPool.Run.{without_first, run_takes, if_true}
use primordialsoup.ThreadPool.IdleSteps.{reap_shut}
use primordialsoup.ThreadPool.Steps.{Steps, stay, step, append}
use primordialsoup.ThreadPool.Laws.{release_assertion}
use primordialsoup.ThreadPool.Tasks.{put_self}

put_elsewhere :
    (v w : ℕ) (x : Worker) (workers : ℕ → Worker) → w ≢ v → put v x workers w ≡ workers w
put_elsewhere v w x workers d = rw (other v w d) refl
  where
    other : (v w : ℕ) → w ≢ v → (w == v) ≡ false
    other v w d = ground arith

-- A worker beside one that is marked as done, or the same.
abbrev mark : ℕ → (ℕ → Worker) → ℕ → Worker
mark v workers = put v (record (workers v) { done = true }) workers

marked :
    (w v : ℕ) (ws : List ℕ) (workers : ℕ → Worker)
    → ((mark v workers w).phase ≡ (workers w).phase)
      × ((mark v workers w).task ≡ (workers w).task)
      × ((mark v workers w).coming ≡ (workers w).coming)
marked w v ws workers = elim (ℕ_discrete w v) [
  | yes g ↦ rw g (
      let same = put_self v (record (workers v) { done = true }) workers in
      (
        ap (λ (y : Worker). y.phase) same,
        ap (λ (y : Worker). y.task) same,
        ap (λ (y : Worker). y.coming) same,
      ))
  | no g ↦
      let same = put_elsewhere v w (record (workers v) { done = true }) workers g in
      (
        ap (λ (y : Worker). y.phase) same,
        ap (λ (y : Worker). y.task) same,
        ap (λ (y : Worker). y.coming) same,
      )
]

marked_done :
    (w v : ℕ) (ws : List ℕ) (workers : ℕ → Worker)
    → (has w (v ∷ ws) ≡ true) ⊎ ((workers w).done ≡ true)
    → (has w ws ≡ true) ⊎ ((mark v workers w).done ≡ true)
marked_done w v ws workers f = elim (ℕ_discrete w v) [
  | yes g ↦
      inr (
        rw g
          (ap (λ (y : Worker). y.done) (put_self v (record (workers v) { done = true }) workers)))
  | no g ↦ elim f [
    | inl e ↦ inl (sym (has_other w v ws (λ q. g (sym q))) ∙ e)
    | inr e ↦ inr (
        ap (λ (y : Worker). y.done)
          (put_elsewhere v w (record (workers v) { done = true }) workers g)
        ∙ e)
  ]
]

-- A worker that holds its monitor goes on to wait, as it cannot become idle any more.
monitor-cases :
    (phase : Phase) → (phase ≡ idling) ⊎ (phase ≡ joining) ⊎ (holds_monitor phase ≡ false)
monitor-cases absent = inr (inr refl)
monitor-cases created = inr (inr refl)
monitor-cases started = inr (inr refl)
monitor-cases (running t) = inr (inr refl)
monitor-cases idling = inl refl
monitor-cases joining = inr (inl refl)
monitor-cases waiting = inr (inr refl)
monitor-cases released = inr (inr refl)
monitor-cases exiting = inr (inr refl)
monitor-cases left = inr (inr refl)
monitor-cases deleted = inr (inr refl)

record Settled (w v : ℕ) (s r : System) : Type 0 where
  steps : Steps s r
  to_stop : r.to_stop ≡ s.to_stop
  shut : r.pool.shutting_down ≡ true
  free : holds_monitor (r.worker v).phase ≡ false
  kept : r.worker w ≡ s.worker w

-- A worker that goes on to wait, beside one that does not hold its monitor.
then_waits :
    (w v : ℕ) (s : System)
    → s.pool.shutting_down ≡ true
    → holds_monitor (s.worker w).phase ≡ false
    → holds_monitor (s.worker v).phase ≡ true
    → Step s (becomes s v (at (s.worker v) waiting) s.pool)
    → (r : System) × Settled w v s r
then_waits w v s shut free held e = elim (ℕ_discrete w v) [
  | yes g ↦
      absurd (true-false (sym held ∙ ap (λ u. holds_monitor (s.worker u).phase) (sym g) ∙ free))
  | no g ↦ (
    _,
    record {
      steps = step e stay;
      to_stop = refl;
      shut = shut;
      free =
          ap (λ (y : Worker). holds_monitor y.phase)
            (put_self v (at (s.worker v) waiting) s.worker);
      kept = put_elsewhere v w _ s.worker g;
    },
  )
]

settles :
    (w v : ℕ) (s : System)
    → s.pool.shutting_down ≡ true
    → holds_monitor (s.worker w).phase ≡ false
    → (r : System) × Settled w v s r
unfolding set_idle_reaped
settles w v s shut free = elim (monitor-cases (s.worker v).phase) [
  | inl e ↦ then_waits w v s shut free (ap holds_monitor e) (
      subst
        (λ (r : List ℕ × Pool).
          Step s (becomes s v (at (s.worker v) (if is_nil r.0 then waiting else joining)) r.1))
        (reap_shut v s.pool shut) (idles v e))
  | inr (inl e) ↦ then_waits w v s shut free (ap holds_monitor e) (
      subst (λ (q : Pool). Step s (becomes s v (at (s.worker v) waiting) q)) (if_true shut _ _)
        (reaps v e))
  | inr (inr e) ↦ (s, record { steps = stay; to_stop = refl; shut = shut; free = e; kept = refl })
]

-- All that `Shutdown` is to stop are marked as done, and told nothing else.
record Stopped (w : ℕ) (s r : System) : Type 0 where
  steps : Steps s r
  empty : r.to_stop ≡ []
  phase : (r.worker w).phase ≡ (s.worker w).phase
  task : (r.worker w).task ≡ (s.worker w).task
  coming : (r.worker w).coming ≡ (s.worker w).coming
  done : (r.worker w).done ≡ true

stop_each :
    (w : ℕ) (ws : List ℕ) (s : System)
    → s.pool.shutting_down ≡ true
    → holds_monitor (s.worker w).phase ≡ false
    → s.to_stop ≡ ws
    → (has w ws ≡ true) ⊎ ((s.worker w).done ≡ true)
    → (r : System) × Stopped w s r
stop_each w [] s up free e (inl f) = absurd cc
stop_each w [] s up free e (inr f) =
    (s, record { steps = stay; empty = e; phase = refl; task = refl; coming = refl; done = f })
stop_each w (v ∷ ws) s up free e f =
    let (q, k) = settles w v s up free in
    let x = record (q.worker v) { done = true } in
    let m = record (becomes q v x (add_to_shutdown_list v q.pool)) { to_stop = ws } in
    let same = marked w v ws q.worker in
    let f' : (has w (v ∷ ws) ≡ true) ⊎ ((q.worker w).done ≡ true) =
      subst (λ (y : Worker). (has w (v ∷ ws) ≡ true) ⊎ (y.done ≡ true)) (sym k.kept) f in
    let free' = ap holds_monitor (same.0 ∙ ap (λ (y : Worker). y.phase) k.kept) ∙ free in
    let (r, j) = stop_each w ws m k.shut free' refl (marked_done w v ws q.worker f') in
    (
      r,
      record {
        steps = append k.steps (step (stops v ws (k.to_stop ∙ e) k.free) j.steps);
        empty = j.empty;
        phase = j.phase ∙ same.0 ∙ ap (λ (y : Worker). y.phase) k.kept;
        task = j.task ∙ same.1 ∙ ap (λ (y : Worker). y.task) k.kept;
        coming = j.coming ∙ same.2 ∙ ap (λ (y : Worker). y.coming) k.kept;
        done = j.done;
      },
    )

-- A worker that is marked as done wakes up without a task, and leaves.
goes :
    (s : System) (w t : ℕ)
    → s.to_stop ≡ []
    → (s.worker w).phase ≡ waiting
    → (s.worker w).task ≡ none
    → (s.worker w).done ≡ true
    → (s.worker w).coming ≡ some t
    → (r : System) × Steps s r × ((r.worker w).phase ≡ deleted) × ((r.worker w).coming ≡ some t)
goes s w t empty waits no_task done coming =
    let s1 = becomes s w (at (s.worker w) exiting) s.pool in
    let e1 = put_self w (at (s.worker w) exiting) s.worker in
    let s2 = becomes s1 w (at (s1.worker w) left) (add_to_join_list w s1.pool) in
    let e2 = put_self w (at (s1.worker w) left) s1.worker in
    let e3 = put_self w (at (s2.worker w) deleted) s2.worker in
    (
      _,
      step (quits w waits no_task done) (
          step (exits w (ap (λ (y : Worker). y.phase) e1))
            (step (leaves w (ap (λ (y : Worker). y.phase) e2) empty) stay)),
      ap (λ (y : Worker). y.phase) e3,
      ap (λ (y : Worker). y.coming) e3
          ∙ ap (λ (y : Worker). y.coming) e2
          ∙ ap (λ (y : Worker). y.coming) e1
          ∙ coming,
    )

-- A task that `Run` accepts for an idle worker before the pool shuts down may come when the worker has
-- gone: from any pool that the steps lead to, that is not shutting down and whose first idle worker is
-- the given one, more steps lead to where a caller has the task for this worker and it is deleted.
pub late_task :
    (s : System) (w : ℕ) (ws : List ℕ) (t : ℕ)
    → Reachable s
    → s.pool.shutting_down ≡ false
    → s.pool.idle_workers ≡ w ∷ ws
    → (r : System) × Steps s r × ((r.worker w).phase ≡ deleted) × ((r.worker w).coming ≡ some t)
unfolding shutdown_locked
late_task s w ws t h up idle =
    let (all, is_up, waits, no_task) = release_assertion h w (ap (has w) idle ∙ has_self w ws) in
    let x = record (s.worker w) { coming = some t } in
    let same = put_self w x s.worker in
    let there = ap (λ (y : Worker). y.phase) same ∙ waits in
    let given = becomes s w x (without_first s.pool ws) in
    let shut = record given {
      pool = (shutdown_locked given.pool).1;
      to_stop = s.pool.all_workers;
    } in
    let (r, k) = stop_each w s.pool.all_workers shut refl (ap holds_monitor there) refl (inl all) in
    let (q, steps, gone, coming) =
      goes r w t k.empty (k.phase ∙ there) (k.task ∙ ap (λ (y : Worker). y.task) same ∙ no_task)
        k.done (k.coming ∙ ap (λ (y : Worker). y.coming) same) in
    (
      q,
      step (runs_idle w t (run_takes s.fresh w ws s.pool up idle))
          (step (shuts_down up) (append k.steps steps)),
      gone,
      coming,
    )
