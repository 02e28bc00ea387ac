-- ===== src/ThreadPool/Sections.antt =====
-- The sections of code that hold the mutex keep the lists and the counts of the pool.
use primordialsoup.Base.{
  true-false, ℕ, suc, ◌+◌, ◌≡◌, ◌⊎◌, refl, sym, ap, ◌∙◌, Bool, true, false, List, ◌∷◌, length, u64,
  sub64, arith, Bool-cases, inl, inr,
}
use primordialsoup.ThreadPool.{
  Pool, has, shutdown_locked, set_idle_locked, release_idle_worker, remove_worker, after_removal,
}
use primordialsoup.ThreadPool.Lists.{remove_worker-Removes, stop_all-is, stop_all-u64}
use primordialsoup.ThreadPool.Invariant.{IsPool}
use primordialsoup.ThreadPool.Run.{if_true, if_false, with_new, without_first}

module _ (p : Pool) (h : IsPool p) where
  pub new-IsPool :
      (fresh : ℕ)
      → p.shutting_down ≡ false
      → has fresh p.all_workers ≡ false
      → IsPool (with_new fresh p)
  new-IsPool fresh up absent = record {
    all_set = (absent, h.all_set);
    idle_set = h.idle_set;
    started_is = omega (arith, h.started_is);
    idle_is = h.idle_is;
    running_is = omega (arith, h.running_is);
    stopped_is = h.stopped_is;
    shut = λ e. absurd (true-false (sym e ∙ up));
  }

  pub taken-IsPool :
      (w : ℕ) (ws : List ℕ)
      → p.shutting_down ≡ false
      → p.idle_workers ≡ w ∷ ws
      → IsPool (without_first p ws)
  taken-IsPool w ws up e =
      let count : length p.idle_workers ≡ suc (length ws) = ap length e in
      record {
        all_set = h.all_set;
        idle_set = (rw e at h.idle_set).1;
        started_is = h.started_is;
        idle_is = omega (arith, h.idle_is, count);
        running_is = omega (arith, h.running_is);
        stopped_is = h.stopped_is;
        shut = λ f. absurd (true-false (sym f ∙ up));
      }

  pub idle-IsPool :
      (w : ℕ)
      → p.shutting_down ≡ false
      → has w p.idle_workers ≡ false
      → IsPool (set_idle_locked w p)
  unfolding set_idle_locked
  idle-IsPool w up absent = record {
    all_set = h.all_set;
    idle_set = (absent, h.idle_set);
    started_is = h.started_is;
    idle_is = omega (arith, h.idle_is);
    running_is = omega (arith, h.running_is);
    stopped_is = h.stopped_is;
    shut = λ f. absurd (true-false (sym f ∙ up));
  }

  pub shutdown-IsPool : p.shutting_down ≡ false → IsPool (shutdown_locked p).1
  unfolding shutdown_locked
  shutdown-IsPool up = record {
    all_set = tt;
    idle_set = tt;
    started_is = omega (arith, h.started_is, stop_all-is p.all_workers p.count_stopped);
    idle_is = refl;
    running_is = refl;
    stopped_is = stop_all-u64 p.all_workers p.count_stopped h.stopped_is;
    shut = λ f. (refl, refl);
  }

  -- What a worker that is released leaves.
  abbrev pub without_worker : ℕ → Pool
  without_worker w = record p {
    idle_workers = (remove_worker w p.idle_workers).1;
    all_workers = (remove_worker w p.all_workers).1;
    join_list = w ∷ p.join_list;
    count_stopped = u64 (p.count_stopped + 1);
    count_idle = sub64 p.count_idle 1;
  }

  kept : (w : ℕ) (r : Bool × List ℕ) → r.0 ≡ false → after_removal w p r ≡ (false, p)
  kept w (false, xs) e = refl
  kept w (true, xs) e = absurd (true-false e)

  removed : (w : ℕ) (r : Bool × List ℕ) → r.0 ≡ true → (after_removal w p r).0 ≡ true
  removed w (false, xs) e = absurd (true-false (sym e))
  removed w (true, xs) e = refl

  removed_pool :
      (w : ℕ) (r : Bool × List ℕ)
      → r.0 ≡ true
      → (after_removal w p r).1 ≡ record p {
        idle_workers = r.1;
        all_workers = (remove_worker w p.all_workers).1;
        join_list = w ∷ p.join_list;
        count_stopped = u64 (p.count_stopped + 1);
        count_idle = sub64 p.count_idle 1;
      }
  removed_pool w (false, xs) e = absurd (true-false (sym e))
  removed_pool w (true, xs) e = refl

  pub release-keeps :
      (w : ℕ)
      → (p.shutting_down ≡ true) ⊎ (has w p.idle_workers ≡ false)
      → release_idle_worker w p ≡ (false, p)
  unfolding release_idle_worker
  release-keeps w (inl e) = if_true e _ _
  release-keeps w (inr e) =
      let i = remove_worker-Removes w p.idle_workers h.idle_set in
      elim (Bool-cases p.shutting_down) [
        | inl f ↦ if_true f _ _
        | inr f ↦ if_false f _ _ ∙ kept w (remove_worker w p.idle_workers) (i.found ∙ e)
      ]

  pub release-removes :
      (w : ℕ)
      → p.shutting_down ≡ false
      → has w p.idle_workers ≡ true
      → ((release_idle_worker w p).0 ≡ true) × ((release_idle_worker w p).1 ≡ without_worker w)
  unfolding release_idle_worker
  release-removes w f e =
      let i = remove_worker-Removes w p.idle_workers h.idle_set in
      let run = if_false f (false, p) (after_removal w p (remove_worker w p.idle_workers)) in
      (
        ap (λ (r : Bool × Pool). r.0) run
            ∙ removed w (remove_worker w p.idle_workers) (i.found ∙ e),
        ap (λ (r : Bool × Pool). r.1) run
            ∙ removed_pool w (remove_worker w p.idle_workers) (i.found ∙ e),
      )

  pub released-IsPool :
      (w : ℕ)
      → p.shutting_down ≡ false
      → has w p.idle_workers ≡ true
      → has w p.all_workers ≡ true
      → IsPool (without_worker w)
  released-IsPool w f e g =
      let i = remove_worker-Removes w p.idle_workers h.idle_set in
      let a = remove_worker-Removes w p.all_workers h.all_set in
      let fewer_idle = i.fewer e in
      let fewer_all = a.fewer g in
      record {
        all_set = a.set;
        idle_set = i.set;
        started_is = omega (arith, h.started_is, fewer_all);
        idle_is = omega (arith, h.idle_is, fewer_idle);
        running_is = omega (arith, h.running_is, fewer_all, h.idle_is, fewer_idle);
        stopped_is = omega arith;
        shut = λ q. absurd (true-false (sym q ∙ f));
      }
