-- ===== src/ThreadPool/Exits.antt =====
-- The steps of the shutdown keep the invariant.
use primordialsoup.Base.{ℕ, ◌≡◌, refl, sym, ◌∙◌, Bool, true, false, List, [], ◌∷◌, inl, inr}
use primordialsoup.ThreadPool.{
  Pool, shutdown_locked, add_to_shutdown_list, remove_from_shutdown_list, add_to_join_list,
}
use primordialsoup.ThreadPool.System.{
  System, Phase, absent, created, started, idling, joining, waiting, released, running, exiting,
  left, deleted, becomes, at,
}
use primordialsoup.ThreadPool.Invariant.{MayBeDone, IsSystem, in_use, becomes-IsSystem}
use primordialsoup.ThreadPool.Sections.{shutdown-IsPool}
use primordialsoup.ThreadPool.Places.{shut_place}
use primordialsoup.ThreadPool.ListSteps.{joined-IsPool}

shutdown_is :
    (p : Pool)
    → ((shutdown_locked p).1.shutting_down ≡ true)
      × ((shutdown_locked p).1.all_workers ≡ [])
      × ((shutdown_locked p).1.idle_workers ≡ [])
unfolding shutdown_locked
shutdown_is p = (refl, refl, refl)

cons-nil : {w : ℕ} {ws : List ℕ} → (w ∷ ws) ≡ [] → ⊥
cons-nil h = cc

shut_done : (phase : Phase) {shut : Bool} → shut ≡ true → MayBeDone phase shut
shut_done absent e = e
shut_done created e = e
shut_done started e = e
shut_done (running t) e = e
shut_done idling e = e
shut_done joining e = e
shut_done waiting e = e
shut_done released e = tt
shut_done exiting e = e
shut_done left e = e
shut_done deleted e = e

module _ {s : System} (h : IsSystem s) where
  pub shuts_down-IsSystem :
      s.pool.shutting_down ≡ false
      → IsSystem
          (record s { pool = (shutdown_locked s.pool).1; to_stop = (shutdown_locked s.pool).0 })
  shuts_down-IsSystem up = record {
    pool = shutdown-IsPool s.pool h.pool up;
    stopping = inl (shutdown_is s.pool).0;
    unused = h.unused;
    each = λ v.
        rw ((shutdown_is s.pool).0, (shutdown_is s.pool).1, (shutdown_is s.pool).2)
          (record {
            stopped = λ f. shut_done (s.worker v).phase refl;
            place = shut_place (s.worker v).phase _ _ _ _ _ (h.each v).place;
          });
  }

  pub stops-IsSystem :
      (w : ℕ) (ws : List ℕ)
      → s.to_stop ≡ w ∷ ws
      → IsSystem
          (record (becomes s w
            (record (s.worker w) { done = true })
            (add_to_shutdown_list w s.pool)) { to_stop = ws })
  stops-IsSystem w ws e =
      let shut : s.pool.shutting_down ≡ true = elim (h.stopping) [
        | inl f ↦ f
        | inr f ↦ absurd (cons-nil (sym e ∙ f))
      ] in
      let moved =
        becomes-IsSystem h w (record (s.worker w) { done = true }) (add_to_shutdown_list w s.pool)
          (joined-IsPool s.pool s.pool.join_list (w ∷ s.pool.shutting_down_workers) h.pool) refl
          (λ v d. refl) (λ v d. refl)
          (record { stopped = λ f. shut_done (s.worker w).phase shut; place = (h.each w).place })
          (h.unused w) in
      record { pool = moved.pool; stopping = inl shut; unused = moved.unused; each = moved.each }

  pub exits-IsSystem :
      (w : ℕ)
      → (s.worker w).phase ≡ exiting
      → IsSystem (becomes s w (at (s.worker w) left) (add_to_join_list w s.pool))
  exits-IsSystem w e =
      becomes-IsSystem h w _ _
        (joined-IsPool s.pool (w ∷ s.pool.join_list) s.pool.shutting_down_workers h.pool) refl
        (λ v d. refl) (λ v d. refl)
        (record { stopped = rw e at (h.each w).stopped; place = rw e at (h.each w).place })
        (λ l. absurd (in_use h w exiting e (λ q. cc) l))

  pub leaves-IsSystem :
      (w : ℕ)
      → (s.worker w).phase ≡ left
      → IsSystem (becomes s w (at (s.worker w) deleted) (remove_from_shutdown_list w s.pool))
  leaves-IsSystem w e =
      becomes-IsSystem h w _ _ (joined-IsPool s.pool s.pool.join_list _ h.pool) refl (λ v d. refl)
        (λ v d. refl)
        (record { stopped = rw e at (h.each w).stopped; place = rw e at (h.each w).place })
        (λ l. absurd (in_use h w left e (λ q. cc) l))

  pub joins-IsSystem : IsSystem (record s { pool = record (s.pool) { join_list = [] } })
  joins-IsSystem = record {
    pool = joined-IsPool s.pool [] s.pool.shutting_down_workers h.pool;
    stopping = h.stopping;
    unused = h.unused;
    each = h.each;
  }
