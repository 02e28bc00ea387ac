-- ===== src/ThreadPool/ListSteps.antt =====
-- The steps that take a worker in or out of the lists keep the invariant.
use mathlib.Core.Path.{subst}
use primordialsoup.Base.{
  ℕ, suc, ◌≤◌, ◌≡◌, refl, sym, ap, ◌∙◌, true, false, some, List, ◌∷◌, arith, inl, inr,
}
use primordialsoup.ThreadPool.{Pool, has, run_locked}
use primordialsoup.ThreadPool.Lists.{has_self, has_other}
use primordialsoup.ThreadPool.System.{System, absent, created, becomes}
use primordialsoup.ThreadPool.Invariant.{IsWorker, IsPool, IsSystem, put-All, becomes-IsSystem}
use primordialsoup.ThreadPool.Preserves.{some-none}
use primordialsoup.ThreadPool.Run.{run_new-is, run_idle-is}
use primordialsoup.ThreadPool.Sections.{new-IsPool, taken-IsPool}
use primordialsoup.ThreadPool.Places.{idle_place}

-- The lists of exits are no part of it.
pub joined-IsPool :
    (p : Pool) (js ws : List ℕ)
    → IsPool p
    → IsPool (record p { join_list = js; shutting_down_workers = ws })
joined-IsPool p js ws h = record {
  all_set = h.all_set;
  idle_set = h.idle_set;
  started_is = h.started_is;
  idle_is = h.idle_is;
  running_is = h.running_is;
  stopped_is = h.stopped_is;
  shut = h.shut;
}

module _ {s : System} (h : IsSystem s) where
  pub runs_new-IsSystem :
      (t : ℕ) (p : Pool)
      → run_locked s.fresh s.pool ≡ some (s.fresh, true, p)
      → IsSystem
          (record (becomes s s.fresh
            (record (s.worker s.fresh) { phase = created; coming = some t })
            p) { fresh = suc s.fresh })
  runs_new-IsSystem t p e =
      let (up, none_idle, is) = run_new-is s.fresh s.pool p e in
      let w = s.fresh in
      let x = s.worker w in
      let place = rw (h.unused w (omega arith)) at (h.each w).place in
      subst
        (λ (q : Pool).
          IsSystem (record (becomes s w (record x { phase = created; coming = some t }) q) {
            fresh = suc w;
          }))
        is
        (record {
          pool = new-IsPool s.pool h.pool w up place.1;
          stopping = h.stopping;
          unused =
              put-All (λ v y. suc w ≤ v → y.phase ≡ absent) w _ s.worker (λ l. absurd (omega arith))
                (λ v d l. h.unused v (omega arith));
          each =
              put-All
                (λ v y.
                  IsWorker (has v s.pool.idle_workers) (has v (w ∷ s.pool.all_workers))
                    s.pool.shutting_down y)
                w _ s.worker
                (record {
                  stopped = rw (h.unused w (omega arith)) at (h.each w).stopped;
                  place = (
                    place.0,
                    λ f. has_self w s.pool.all_workers,
                    inl (λ f. some-none f, place.2.1),
                  );
                })
                (λ v d. rw (has_other v w s.pool.all_workers d) (h.each v));
        })

  pub runs_idle-IsSystem :
      (w t : ℕ) (p : Pool)
      → run_locked s.fresh s.pool ≡ some (w, false, p)
      → IsSystem (becomes s w (record (s.worker w) { coming = some t }) p)
  runs_idle-IsSystem w t p e =
      let (up, rest) = run_idle-is s.fresh w s.pool p e in
      let (ws, idle, is) = rest in
      let x = s.worker w in
      let here : has w s.pool.idle_workers ≡ true = ap (has w) idle ∙ has_self w ws in
      let (waits, listed, free) = idle_place x.phase _ _ _ _ _ (h.each w).place here in
      let gone : has w ws ≡ false = (rw idle at h.pool.idle_set).0 in
      subst (λ (q : Pool). IsSystem (becomes s w (record x { coming = some t }) q)) is
        (becomes-IsSystem h w _ _ (taken-IsPool s.pool h.pool w ws up idle) refl
          (λ v d. sym (has_other v w ws d) ∙ ap (has v) (sym idle)) (λ v d. refl)
          (record {
            stopped = (h.each w).stopped;
            place = rw waits (listed, inr (inl (gone, inl (λ f. some-none f, free.1))));
          })
          (h.unused w))
