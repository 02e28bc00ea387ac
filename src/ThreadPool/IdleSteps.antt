-- ===== src/ThreadPool/IdleSteps.antt =====
-- The steps of a worker that becomes idle, or has been for long, keep the invariant.
use mathlib.Core.Path.{subst}
use primordialsoup.Base.{
  true-false, ℕ, ◌≡◌, ◌≢◌, ◌⊎◌, refl, sym, ap, ◌∙◌, Bool, true, false, List, [], ◌∷◌, if◌then◌else◌,
  Bool-cases, inl, inr,
}
use primordialsoup.ThreadPool.{
  Pool, has, set_idle_locked, set_idle_or_reap, reap_first, set_idle_reaped, release_idle_worker,
}
use primordialsoup.ThreadPool.Lists.{has_self, has_other, remove_worker-Removes}
use primordialsoup.ThreadPool.System.{
  System, Phase, absent, idling, joining, waiting, becomes, at, after_wait, is_nil,
}
use primordialsoup.ThreadPool.Invariant.{
  IsFree, Listed, IsSystem, in_use, becomes-IsSystem, worker-IsSystem,
}
use primordialsoup.ThreadPool.Preserves.{idle_shut}
use primordialsoup.ThreadPool.Run.{if_true, if_false}
use primordialsoup.ThreadPool.Sections.{
  idle-IsPool, release-keeps, release-removes, released-IsPool,
}
use primordialsoup.ThreadPool.Places.{idle_place}
use primordialsoup.ThreadPool.ListSteps.{joined-IsPool}

pub reap_shut : (w : ℕ) (p : Pool) → p.shutting_down ≡ true → set_idle_or_reap w p ≡ ([], p)
unfolding set_idle_or_reap
reap_shut w p e = if_true e _ _

reap_none :
    (w : ℕ) (p : Pool)
    → p.shutting_down ≡ false
    → p.join_list ≡ []
    → set_idle_or_reap w p ≡ ([], set_idle_locked w p)
unfolding set_idle_or_reap
reap_none w p e f = if_false e _ _ ∙ ap (reap_first w p) f

reap_some :
    (w t : ℕ) (ts : List ℕ) (p : Pool)
    → p.shutting_down ≡ false
    → p.join_list ≡ t ∷ ts
    → set_idle_or_reap w p ≡ (t ∷ ts, record p { join_list = [] })
unfolding set_idle_or_reap
reap_some w t ts p e f = if_false e _ _ ∙ ap (reap_first w p) f

module _ {s : System} (h : IsSystem s) where
  -- A worker that becomes idle.
  idle-IsSystem :
      (w : ℕ) (phase : Phase)
      → (s.worker w).phase ≡ phase
      → phase ≢ absent
      → ((s.worker w).done ≡ true → s.pool.shutting_down ≡ true)
      → s.pool.shutting_down ≡ false
      → has w s.pool.idle_workers ≡ false
      → Listed (has w s.pool.all_workers) s.pool.shutting_down
      → IsFree (s.worker w).coming (s.worker w).task
      → IsSystem (becomes s w (at (s.worker w) waiting) (set_idle_locked w s.pool))
  unfolding set_idle_locked
  idle-IsSystem w phase e d stopped up absent_idle listed free =
      becomes-IsSystem h w _ _ (idle-IsPool s.pool h.pool w up absent_idle) refl
        (λ v f. has_other v w s.pool.idle_workers f) (λ v f. refl)
        (record { stopped = stopped; place = (listed, inl (has_self w s.pool.idle_workers, free)) })
        (λ l. absurd (in_use h w phase e d l))

  -- A worker that cannot, since the pool is shutting down.
  idle_shut-IsSystem :
      (w : ℕ) (phase : Phase)
      → (s.worker w).phase ≡ phase
      → phase ≢ absent
      → s.pool.shutting_down ≡ true
      → IsFree (s.worker w).coming (s.worker w).task
      → IsSystem (becomes s w (at (s.worker w) waiting) s.pool)
  idle_shut-IsSystem w phase e d up free = worker-IsSystem h w _ phase e d (record {
    stopped = λ f. up;
    place = (λ f. absurd (true-false (sym up ∙ f)), inr (inr (idle_shut h.pool w up, up, free)));
  })

  List-cases : (xs : List ℕ) → (xs ≡ []) ⊎ ((w : ℕ) × (ws : List ℕ) × (xs ≡ w ∷ ws))
  List-cases [] = inl refl
  List-cases (w ∷ ws) = inr (w, ws, refl)

  abbrev idled : ℕ → List ℕ × Pool → System
  idled w r = becomes s w (at (s.worker w) (if is_nil r.0 then waiting else joining)) r.1

  pub idles-IsSystem :
      (w : ℕ) → (s.worker w).phase ≡ idling → IsSystem (idled w (set_idle_or_reap w s.pool))
  idles-IsSystem w e =
      let place = rw e at (h.each w).place in
      elim (Bool-cases s.pool.shutting_down) [
        | inl f ↦
            subst (λ (r : List ℕ × Pool). IsSystem (idled w r)) (sym (reap_shut w s.pool f))
              (idle_shut-IsSystem w idling e (λ q. cc) f place.2)
        | inr f ↦ elim (List-cases s.pool.join_list) [
          | inl n ↦
              subst (λ (r : List ℕ × Pool). IsSystem (idled w r)) (sym (reap_none w s.pool f n))
                (idle-IsSystem w idling e (λ q. cc) (rw e at (h.each w).stopped) f place.0 place.1
                  place.2)
          | inr (t, ts, n) ↦
              subst (λ (r : List ℕ × Pool). IsSystem (idled w r))
                (sym (reap_some w t ts s.pool f n))
                (becomes-IsSystem h w _ _
                  (joined-IsPool s.pool [] s.pool.shutting_down_workers h.pool) refl (λ v d. refl)
                  (λ v d. refl) (record { stopped = rw e at (h.each w).stopped; place = place })
                  (λ l. absurd (in_use h w idling e (λ q. cc) l)))
        ]
      ]

  pub reaps-IsSystem :
      (w : ℕ)
      → (s.worker w).phase ≡ joining
      → IsSystem (becomes s w (at (s.worker w) waiting) (set_idle_reaped w s.pool))
  unfolding set_idle_reaped
  reaps-IsSystem w e =
      let place = rw e at (h.each w).place in
      elim (Bool-cases s.pool.shutting_down) [
        | inl f ↦
            subst (λ (q : Pool). IsSystem (becomes s w (at (s.worker w) waiting) q))
              (sym (if_true f _ _)) (idle_shut-IsSystem w joining e (λ q. cc) f place.2)
        | inr f ↦
            subst (λ (q : Pool). IsSystem (becomes s w (at (s.worker w) waiting) q))
              (sym (if_false f _ _))
              (idle-IsSystem w joining e (λ q. cc) (rw e at (h.each w).stopped) f place.0 place.1
                place.2)
      ]

  abbrev timed : ℕ → Bool × Pool → System
  timed w r = becomes s w (after_wait w s.pool.all_workers (s.worker w) r.0) r.1

  stays :
      (w : ℕ)
      → (s.worker w).phase ≡ waiting
      → (s.pool.shutting_down ≡ true) ⊎ (has w s.pool.idle_workers ≡ false)
      → IsSystem (timed w (release_idle_worker w s.pool))
  stays w e c =
      subst (λ (r : Bool × Pool). IsSystem (timed w r)) (sym (release-keeps s.pool h.pool w c))
        (worker-IsSystem h w _ waiting e (λ q. cc)
          (record { stopped = rw e at (h.each w).stopped; place = rw e at (h.each w).place }))

  goes :
      (w : ℕ)
      → (s.worker w).phase ≡ waiting
      → s.pool.shutting_down ≡ false
      → has w s.pool.idle_workers ≡ true
      → IsSystem (timed w (release_idle_worker w s.pool))
  goes w e up idle =
      let x = s.worker w in
      let r = release_idle_worker w s.pool in
      let (same, listed, free) = idle_place x.phase _ _ _ _ _ (h.each w).place idle in
      let (run, pool) = release-removes s.pool h.pool w up idle in
      let i = remove_worker-Removes w s.pool.idle_workers h.pool.idle_set in
      let a = remove_worker-Removes w s.pool.all_workers h.pool.all_set in
      subst (λ (b : Bool). IsSystem (becomes s w (after_wait w s.pool.all_workers x b) r.1))
        (sym run)
        (subst (λ (q : Pool). IsSystem (becomes s w (after_wait w s.pool.all_workers x true) q))
          (sym pool)
          (becomes-IsSystem h w _ _ (released-IsPool s.pool h.pool w up idle (listed up)) refl
            (λ v d. i.others v d) (λ v d. a.others v d)
            (record { stopped = λ f. tt; place = (i.gone, a.gone, free) })
            (λ l. absurd (in_use h w waiting e (λ q. cc) l))))

  pub times_out-IsSystem :
      (w : ℕ) → (s.worker w).phase ≡ waiting → IsSystem (timed w (release_idle_worker w s.pool))
  times_out-IsSystem w e = elim (Bool-cases s.pool.shutting_down) [
    | inl f ↦ stays w e (inl f)
    | inr f ↦ elim (Bool-cases (has w s.pool.idle_workers)) [
      | inr g ↦ stays w e (inr g)
      | inl g ↦ goes w e f g
    ]
  ]
