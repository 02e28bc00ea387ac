-- ===== src/Probe.antt =====
-- Linear probing, as in `vm/port.cc` and `vm/handle.cc`: `while (!test(i)) i = (i + 1) % capacity`.
use primordialsoup.Base.{
  ℕ, zero, suc, ◌+◌, ◌-◌, ◌%◌, ◌≤◌, ◌<◌, ◌≡◌, sym, ap, ◌∙◌, Bool, true, false, Option, none, some,
  if◌then◌else◌, Bool-cases, inl, inr, arith, dec_lt,
}
use native.Mathlib.Nat.{mod-lt, mod-eq_of_lt, mod-add-mod, add-zero}

-- The first index from `i` on at which the test holds; `none` if the fuel runs out.
unfoldable pub probe : (ℕ → Bool) → ℕ → ℕ → ℕ → Option ℕ
probe test capacity zero i = none
probe test capacity (suc fuel) i =
    let rest = probe test capacity fuel ((i + 1) % capacity) in if test i then some i else rest

-- The index that is visited after `n` steps from `home`.
abbrev pub visited : ℕ → ℕ → ℕ → ℕ
visited capacity home n = (home + n) % capacity

-- The probe from `home` stops at `result`, after `steps` steps that the test did not stop.
pub record Stops (test : ℕ → Bool) (capacity home result : ℕ) : Type 0 where
  pub steps : ℕ
  pub few : steps < capacity
  pub there : result ≡ visited capacity home steps
  pub holds : test result ≡ true
  pub before : (m : ℕ) → m < steps → test (visited capacity home m) ≡ false

pub visited-suc :
    (capacity home m : ℕ)
    → visited capacity ((home + 1) % capacity) m ≡ visited capacity home (suc m)
visited-suc capacity home m = rw (mod-add-mod) (ap (λ (t : ℕ). t % capacity) (omega arith))

pub visited-zero : (capacity home : ℕ) → home < capacity → visited capacity home 0 ≡ home
visited-zero capacity home h = rw (add-zero home) (mod-eq_of_lt h)

module _ (test : ℕ → Bool) (capacity : ℕ) where
  probe_finds :
      (fuel d home : ℕ)
      → home < capacity
      → test (visited capacity home d) ≡ true
      → d < fuel
      → (r n : ℕ) × (probe test capacity fuel home ≡ some r)
        × (n ≤ d)
        × (r ≡ visited capacity home n)
        × (test r ≡ true)
        × ((m : ℕ) → m < n → test (visited capacity home m) ≡ false)
  unfolding probe
  probe_finds zero d home h t lt = absurd (omega arith)
  probe_finds (suc fuel) zero home h t lt = (
    home,
    0,
    rw (start home h t),
    omega arith,
    sym (visited-zero capacity home h),
    start home h t,
    λ m k. absurd (omega arith),
  )
    where
      start : (i : ℕ) → i < capacity → test (visited capacity i 0) ≡ true → test i ≡ true
      start i k e = rw (visited-zero capacity i k) at e
  probe_finds (suc fuel) (suc d) home h t lt = elim (Bool-cases (test home)) [
    | inl e ↦ (
      home,
      0,
      rw e,
      omega arith,
      sym (visited-zero capacity home h),
      e,
      λ m k. absurd (omega arith),
    )
    | inr e ↦
        let (r, n, run, le, there, holds, before) =
          probe_finds fuel d ((home + 1) % capacity) (mod-lt (home + 1) (omega arith))
            (rw (visited-suc capacity home d) t) (omega arith) in
        (
          r,
          suc n,
          rw (e) run,
          omega arith,
          there ∙ visited-suc capacity home n,
          holds,
          passed home h e n before,
        )
  ]
    where
      passed :
          (i : ℕ)
          → i < capacity
          → test i ≡ false
          → (n : ℕ) → ((m : ℕ) → m < n → test (visited capacity ((i + 1) % capacity) m) ≡ false)
          → (m : ℕ) → m < suc n
          → test (visited capacity i m) ≡ false
      passed i k e n before zero lt = rw (visited-zero capacity i k) e
      passed i k e n before (suc m) lt = rw (← visited-suc capacity i m) (before m (omega arith))

wrap : (x n : ℕ) → x < n → (x + n) % n ≡ x
wrap x n h = grind arith

-- Every index is visited within `capacity` steps.
pub steps_to :
    (capacity home j : ℕ)
    → home < capacity
    → j < capacity
    → (n : ℕ) × (n < capacity) × (visited capacity home n ≡ j)
steps_to capacity home j hh hj = elim (dec_lt j home) [
  | yes p ↦ (
    j + capacity - home,
    omega arith,
    let e : home + (j + capacity - home) ≡ j + capacity = omega arith in rw e (wrap j capacity hj),
  )
  | no p ↦
      (j - home, omega arith, let e : home + (j - home) ≡ j = omega arith in rw e (mod-eq_of_lt hj))
]

-- With an index at which the test holds, a probe with fuel for every index stops.
pub probe-Stops :
    (test : ℕ → Bool) (capacity home j : ℕ)
    → home < capacity
    → j < capacity
    → test j ≡ true
    → (r : ℕ) × (probe test capacity capacity home ≡ some r) × Stops test capacity home r
probe-Stops test capacity home j hh hj t =
    let (d, lt, e) = steps_to capacity home j hh hj in
    let (r, n, run, le, there, holds, before) =
      probe_finds test capacity capacity d home hh (rw e t) lt in
    (r, run, record { steps = n; few = omega arith; there = there; holds = holds; before = before })

-- The test holds at no step before the last.
pub Stops-le :
    {test : ℕ → Bool} {capacity home result : ℕ} (s : Stops test capacity home result) (k : ℕ)
    → test (visited capacity home k) ≡ true
    → s.steps ≤ k
Stops-le s k h = elim (dec_lt k s.steps) [ yes p ↦ cc (s.before k p) | no p ↦ omega arith ]
