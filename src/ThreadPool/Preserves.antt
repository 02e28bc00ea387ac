-- ===== src/ThreadPool/Preserves.antt =====
-- The steps of a worker, but for those that take it in or out of the lists, keep the invariant.
use primordialsoup.Base.{
  true-false, ℕ, ◌≡◌, refl, sym, ap, ◌∙◌, Bool, true, false, Option, none, some, inl, inr,
  if◌then◌else◌, Bool-cases,
}
use primordialsoup.ThreadPool.{Pool, has}
use primordialsoup.ThreadPool.System.{
  System, Worker, Phase, absent, created, started, idling, joining, waiting, released, exiting,
  left, deleted, running, becomes, at,
}
use primordialsoup.ThreadPool.Invariant.{IsAt, IsPool, IsSystem, becomes-IsSystem, worker-IsSystem}

pub some-none : {t : ℕ} → some t ≡ none → ⊥
some-none h = cc

pub none_given : {c : Option ℕ} {t : ℕ} → c ≡ none → c ≡ some t → ⊥
none_given e f = some-none (sym f ∙ e)

-- The slot is empty where a caller brings a task.
pub slot_free :
    (phase : Phase) (idle all shut : Bool) (c k : Option ℕ) {t : ℕ}
    → IsAt phase idle all shut c k
    → c ≡ some t
    → k ≡ none
slot_free absent idle all shut c k h e = h.2.1
slot_free created idle all shut c k h e = elim (h.2) [
  | inl b ↦ b.1
  | inr b ↦ absurd (none_given b.0 e)
]
slot_free started idle all shut c k h e = absurd (none_given h.2 e)
slot_free (running t) idle all shut c k h e = h.2.1
slot_free idling idle all shut c k h e = h.2.1
slot_free joining idle all shut c k h e = h.2.1
slot_free waiting idle all shut c k h e = elim (h.1) [
  | inl b ↦ b.1.1
  | inr (inl b) ↦ elim (b.1) [ inl f ↦ f.1 | inr f ↦ absurd (none_given f.0 e) ]
  | inr (inr b) ↦ b.2.1
]
slot_free released idle all shut c k h e = h.2.1
slot_free exiting idle all shut c k h e = elim (h.2) [ inl b ↦ absurd (none_given b e) | inr b ↦ b ]
slot_free left idle all shut c k h e = elim (h.2) [ inl b ↦ absurd (none_given b e) | inr b ↦ b ]
slot_free deleted idle all shut c k h e = elim (h.2) [ inl b ↦ absurd (none_given b e) | inr b ↦ b ]

given :
    (phase : Phase) (idle all shut : Bool) (c k : Option ℕ) {t : ℕ}
    → IsAt phase idle all shut c k
    → c ≡ some t
    → IsAt phase idle all shut none (some t)
given absent idle all shut c k h e = absurd (none_given h.2.0 e)
given created idle all shut c k h e = (h.0, h.1, inr (refl, λ f. some-none f))
given started idle all shut c k h e = absurd (none_given h.2 e)
given (running t) idle all shut c k h e = absurd (none_given h.2.0 e)
given idling idle all shut c k h e = absurd (none_given h.2.0 e)
given joining idle all shut c k h e = absurd (none_given h.2.0 e)
given waiting idle all shut c k h e = elim (h.1) [
  | inl b ↦ absurd (none_given b.1.0 e)
  | inr (inl b) ↦ (h.0, inr (inl (b.0, inr (refl, λ f. some-none f))))
  | inr (inr b) ↦ absurd (none_given b.2.0 e)
]
given released idle all shut c k h e = absurd (none_given h.2.0 e)
given exiting idle all shut c k h e = (h.0, h.1, inl refl)
given left idle all shut c k h e = (h.0, h.1, inl refl)
given deleted idle all shut c k h e = (h.0, h.1, inl refl)

pub idle_shut :
    {p : Pool} (h : IsPool p) (w : ℕ) → p.shutting_down ≡ true → has w p.idle_workers ≡ false
idle_shut h w e = ap (has w) (h.shut e).1

module _ {s : System} (h : IsSystem s) (w : ℕ) where
  abbrev x : Worker
  x = s.worker w

  pub sets_task-IsSystem :
      (t : ℕ)
      → x.coming ≡ some t
      → IsSystem (becomes s w (record x { task = some t; coming = none }) s.pool)
  sets_task-IsSystem t e =
      becomes-IsSystem h w _ s.pool h.pool refl (λ v f. refl) (λ v f. refl)
        (record {
          stopped = (h.each w).stopped;
          place = given x.phase _ _ _ _ _ (h.each w).place e;
        })
        (h.unused w)

  place_is :
      (phase : Phase)
      → x.phase ≡ phase
      → IsAt phase
          (has w s.pool.idle_workers)
          (has w s.pool.all_workers)
          s.pool.shutting_down
          x.coming
          x.task
  place_is phase e = rw e at (h.each w).place

  pub starts-IsSystem :
      (t : ℕ) → x.phase ≡ created → x.task ≡ some t → IsSystem (becomes s w (at x started) s.pool)
  starts-IsSystem t e f =
      let p = place_is created e in
      worker-IsSystem h w (at x started) created e (λ q. cc)
        (record {
          stopped = rw e at (h.each w).stopped;
          place = elim (p.2) [ inl b ↦ absurd (none_given b.1 f) | inr b ↦ (p.0, p.1, b.0, b.1) ];
        })

  pub takes-IsSystem :
      (t : ℕ)
      → x.phase ≡ started
      → IsSystem (becomes s w (record x { task = none; phase = running t }) s.pool)
  takes-IsSystem t e =
      let p = place_is started e in
      worker-IsSystem h w _ started e (λ q. cc)
        (record { stopped = rw e at (h.each w).stopped; place = (p.0, p.1, (p.2, refl)) })

  pub finishes-IsSystem :
      (t : ℕ)
      → x.phase ≡ running t
      → IsSystem (becomes s w (at x (if x.done then exiting else idling)) s.pool)
  finishes-IsSystem t e =
      let p = place_is (running t) e in
      let shut : x.done ≡ true → s.pool.shutting_down ≡ true = rw e at (h.each w).stopped in
      worker-IsSystem h w _ (running t) e (λ q. cc)
        (elim (Bool-cases x.done) [
          | inl d ↦ rw d (record { stopped = λ f. shut d; place = (p.0, shut d, inl p.2.0) })
          | inr d ↦ rw d (record { stopped = λ f. absurd (cc); place = p })
        ])

  pub wakes-IsSystem :
      (t : ℕ)
      → x.phase ≡ waiting
      → x.task ≡ some t
      → IsSystem (becomes s w (record x { task = none; phase = running t }) s.pool)
  wakes-IsSystem t e f =
      let p = place_is waiting e in
      worker-IsSystem h w _ waiting e (λ q. cc)
        (record {
          stopped = rw e at (h.each w).stopped;
          place = elim (p.1) [
            | inl b ↦ absurd (none_given b.1.1 f)
            | inr (inl b) ↦ elim (b.1) [
              | inl g ↦ absurd (none_given g.1 f)
              | inr g ↦ (b.0, p.0, (g.0, refl))
            ]
            | inr (inr b) ↦ absurd (none_given b.2.1 f)
          ];
        })

  pub quits-IsSystem :
      x.phase ≡ waiting
      → x.task ≡ none
      → x.done ≡ true
      → IsSystem (becomes s w (at x exiting) s.pool)
  quits-IsSystem e f d =
      let p = place_is waiting e in
      let shut : s.pool.shutting_down ≡ true = (rw e at (h.each w).stopped) d in
      worker-IsSystem h w (at x exiting) waiting e (λ q. cc)
        (record {
          stopped = rw e at (h.each w).stopped;
          place = elim (p.1) [
            | inl b ↦ absurd (true-false (sym b.0 ∙ idle_shut h.pool w shut))
            | inr (inl b) ↦ (b.0, shut, inr f)
            | inr (inr b) ↦ (b.0, shut, inr f)
          ];
        })
