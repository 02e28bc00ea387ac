-- ===== src/ThreadPool/Run.antt =====
-- What `Run` does while it holds the mutex of the pool.
use primordialsoup.Base.{
  true-false, ℕ, ◌+◌, ◌≡◌, ◌⊎◌, refl, sym, ap, ◌∙◌, Bool, true, false, none, some, List, [], ◌∷◌,
  if◌then◌else◌, u64, sub64, Bool-cases, inl, inr,
}
use primordialsoup.ThreadPool.{Pool, run_locked}

none-some : {A : Type 0} {a : A} → none ≡ some a → ⊥
none-some h = cc

some_inj : {A : Type 0} {a b : A} → some a ≡ some b → a ≡ b
some_inj h = cc

pub if_true : {A : Type 0} {b : Bool} → b ≡ true → (x y : A) → (if b then x else y) ≡ x
if_true e x y = rw e refl

pub if_false : {A : Type 0} {b : Bool} → b ≡ false → (x y : A) → (if b then x else y) ≡ y
if_false e x y = rw e refl

-- With the first worker taken from the idle list.
abbrev pub without_first : Pool → List ℕ → Pool
without_first p ws = record p {
  idle_workers = ws;
  count_idle = sub64 p.count_idle 1;
  count_running = u64 (p.count_running + 1);
}

abbrev pub with_new : ℕ → Pool → Pool
with_new fresh p = record p {
  count_started = u64 (p.count_started + 1);
  all_workers = fresh ∷ p.all_workers;
  count_running = u64 (p.count_running + 1);
}

-- What `Run` does is to refuse, to allocate a worker, or to take the first that is idle.
run_refuses : (fresh : ℕ) (p : Pool) → p.shutting_down ≡ true → run_locked fresh p ≡ none
unfolding run_locked
run_refuses fresh p e = rw e refl

run_allocates :
    (fresh : ℕ) (p : Pool)
    → p.shutting_down ≡ false
    → p.idle_workers ≡ []
    → run_locked fresh p ≡ some (fresh, true, with_new fresh p)
unfolding run_locked
run_allocates fresh p e f = rw (e, f) refl

pub run_takes :
    (fresh w : ℕ) (ws : List ℕ) (p : Pool)
    → p.shutting_down ≡ false
    → p.idle_workers ≡ w ∷ ws
    → run_locked fresh p ≡ some (w, false, without_first p ws)
unfolding run_locked
run_takes fresh w ws p e f = rw (e, f) refl

List-cases : (xs : List ℕ) → (xs ≡ []) ⊎ ((w : ℕ) × (ws : List ℕ) × (xs ≡ w ∷ ws))
List-cases [] = inl refl
List-cases (w ∷ ws) = inr (w, ws, refl)

run_open :
    (fresh : ℕ) (p : Pool) (r : ℕ × Bool × Pool)
    → run_locked fresh p ≡ some r
    → p.shutting_down ≡ false
run_open fresh p r e = elim (Bool-cases p.shutting_down) [
  | inl s ↦ absurd (none-some (sym (run_refuses fresh p s) ∙ e))
  | inr s ↦ s
]

pub run_new-is :
    (fresh : ℕ) (p q : Pool)
    → run_locked fresh p ≡ some (fresh, true, q)
    → (p.shutting_down ≡ false) × (p.idle_workers ≡ []) × (with_new fresh p ≡ q)
run_new-is fresh p q e =
    let s = run_open fresh p _ e in
    elim (List-cases p.idle_workers) [
      | inl n ↦
          (s, n, ap (λ (r : ℕ × Bool × Pool). r.2) (some_inj (sym (run_allocates fresh p s n) ∙ e)))
      | inr (w, ws, n) ↦ absurd (
          true-false
            (ap (λ (r : ℕ × Bool × Pool). r.1) (some_inj (sym e ∙ run_takes fresh w ws p s n))))
    ]

pub run_idle-is :
    (fresh w : ℕ) (p q : Pool)
    → run_locked fresh p ≡ some (w, false, q)
    → (p.shutting_down ≡ false)
      × ((ws : List ℕ) × (p.idle_workers ≡ w ∷ ws) × (without_first p ws ≡ q))
run_idle-is fresh w p q e =
    let s = run_open fresh p _ e in
    elim (List-cases p.idle_workers) [
      | inl n ↦ absurd (
          true-false
            (ap (λ (r : ℕ × Bool × Pool). r.1) (some_inj (sym (run_allocates fresh p s n) ∙ e))))
      | inr (v, ws, n) ↦
          let same = some_inj (sym (run_takes fresh v ws p s n) ∙ e) in
          (
            s,
            (
              ws,
              n ∙ ap (λ (r : ℕ × Bool × Pool). r.0 ∷ ws) same,
              ap (λ (r : ℕ × Bool × Pool). r.2) same,
            ),
          )
    ]
