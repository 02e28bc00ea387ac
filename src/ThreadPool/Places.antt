-- ===== src/ThreadPool/Places.antt =====
-- Where a worker is that is in the idle list, and what the pool's shutdown makes of the places.
use primordialsoup.Base.{true-false, ℕ, ◌≡◌, refl, sym, ◌∙◌, Bool, true, false, Option, inl, inr}
use primordialsoup.ThreadPool.System.{
  Phase, absent, created, started, idling, joining, waiting, released, exiting, left, deleted,
  running,
}
use primordialsoup.ThreadPool.Invariant.{IsFree, Listed, IsAt}

-- A worker in the idle list waits and has no task.
pub idle_place :
    (phase : Phase) (idle all shut : Bool) (c k : Option ℕ)
    → IsAt phase idle all shut c k
    → idle ≡ true
    → (phase ≡ waiting) × Listed all shut × IsFree c k
idle_place absent idle all shut c k h e = absurd (true-false (sym e ∙ h.0))
idle_place created idle all shut c k h e = absurd (true-false (sym e ∙ h.0))
idle_place started idle all shut c k h e = absurd (true-false (sym e ∙ h.0))
idle_place (running t) idle all shut c k h e = absurd (true-false (sym e ∙ h.0))
idle_place idling idle all shut c k h e = absurd (true-false (sym e ∙ h.0))
idle_place joining idle all shut c k h e = absurd (true-false (sym e ∙ h.0))
idle_place waiting idle all shut c k h e = elim (h.1) [
  | inl b ↦ (refl, h.0, b.1)
  | inr (inl b) ↦ absurd (true-false (sym e ∙ b.0))
  | inr (inr b) ↦ absurd (true-false (sym e ∙ b.0))
]
idle_place released idle all shut c k h e = absurd (true-false (sym e ∙ h.0))
idle_place exiting idle all shut c k h e = absurd (true-false (sym e ∙ h.0))
idle_place left idle all shut c k h e = absurd (true-false (sym e ∙ h.0))
idle_place deleted idle all shut c k h e = absurd (true-false (sym e ∙ h.0))

-- The lists are cleared when the pool shuts down.
pub shut_place :
    (phase : Phase) (idle all shut : Bool) (c k : Option ℕ)
    → IsAt phase idle all shut c k
    → IsAt phase false false true c k
shut_place absent idle all shut c k h = (refl, refl, h.2)
shut_place created idle all shut c k h = (refl, λ e. absurd (true-false e), h.2)
shut_place started idle all shut c k h = (refl, λ e. absurd (true-false e), h.2, h.3)
shut_place (running t) idle all shut c k h = (refl, λ e. absurd (true-false e), h.2)
shut_place idling idle all shut c k h = (refl, λ e. absurd (true-false e), h.2)
shut_place joining idle all shut c k h = (refl, λ e. absurd (true-false e), h.2)
shut_place waiting idle all shut c k h = (
  λ e. absurd (true-false e),
  elim (h.1) [
    | inl b ↦ inr (inr (refl, refl, b.1))
    | inr (inl b) ↦ inr (inl (refl, b.1))
    | inr (inr b) ↦ inr (inr (refl, refl, b.2))
  ],
)
shut_place released idle all shut c k h = (refl, refl, h.2)
shut_place exiting idle all shut c k h = (refl, refl, h.2)
shut_place left idle all shut c k h = (refl, refl, h.2)
shut_place deleted idle all shut c k h = (refl, refl, h.2)
