-- ===== src/PortMap/Bound.antt =====
-- The bindings of the table before and after a write to an unused entry.
use primordialsoup.Base.{
  ℕ, ◌+◌, ◌<◌, ◌≡◌, ◌≢◌, refl, sym, ap, ◌∙◌, true, false, ◌⊎◌, inl, inr, List, set, length, arith,
}
use primordialsoup.PortMap.{LoopPointer, Entry, is_deleted, entry_at}
use primordialsoup.PortMap.Table.{port_at}
use primordialsoup.PortMap.Update.{entry_set}
use primordialsoup.PortMap.Count.{count_if, in_use, gone, count_if-set}

-- The table binds the port to the loop.
abbrev pub Holds : List Entry → ℕ → LoopPointer → Type 0
Holds es port target = (i : ℕ) × (port_at es i ≡ port) × ((entry_at es i).target ≡ target)

pub in_use-nonzero : (e : Entry) → e.port ≢ 0 → in_use e ≡ true
in_use-nonzero e h = ground arith

pub in_use-zero : (e : Entry) → e.port ≡ 0 → in_use e ≡ false
in_use-zero e h = ground arith

pub unused-zero : (es : List Entry) (i : ℕ) → in_use (entry_at es i) ≡ false → port_at es i ≡ 0
unused-zero es i h = ground arith

-- What the table binds after a write to an unused entry.
module _ (nt : List Entry) (r : ℕ) (e : Entry) (bound : r < length nt)
    (free : port_at nt r ≡ 0) where
  pub set-keeps : (q : ℕ) (t : LoopPointer) → q ≢ 0 → Holds nt q t → Holds (set nt r e) q t
  set-keeps q t nz (i, p, u) = elim (entry_set nt r e bound i) [
    | inl (a, b) ↦ absurd (nz (sym p ∙ ap (port_at nt) a ∙ free))
    | inr (a, b) ↦ (i, ap (λ (x : Entry). x.port) b ∙ p, ap (λ (x : Entry). x.target) b ∙ u)
  ]

  pub set-new : Holds (set nt r e) e.port e.target
  set-new = elim (entry_set nt r e bound r) [
    | inl (a, b) ↦ (r, ap (λ (x : Entry). x.port) b, ap (λ (x : Entry). x.target) b)
    | inr (a, b) ↦ absurd (a refl)
  ]

  pub set-only :
      (q : ℕ) (t : LoopPointer)
      → Holds (set nt r e) q t
      → Holds nt q t ⊎ ((q ≡ e.port) × (t ≡ e.target))
  set-only q t (i, p, u) = elim (entry_set nt r e bound i) [
    | inl (a, b) ↦
        inr (sym p ∙ ap (λ (x : Entry). x.port) b, sym u ∙ ap (λ (x : Entry). x.target) b)
    | inr (a, b) ↦
        inl (i, sym (ap (λ (x : Entry). x.port) b) ∙ p, sym (ap (λ (x : Entry). x.target) b) ∙ u)
  ]

pub set-used :
    (nt : List Entry) (r : ℕ) (e : Entry)
    → r < length nt
    → port_at nt r ≡ 0
    → e.port ≢ 0
    → count_if in_use (set nt r e) ≡ count_if in_use nt + 1
set-used nt r e bound free nz =
    let h = count_if-set in_use nt r e bound in
    let k = rw (in_use-zero (entry_at nt r) free, in_use-nonzero e nz) at h in omega (arith, k)

pub set-gone :
    (nt : List Entry) (r : ℕ) (e : Entry)
    → r < length nt
    → gone (entry_at nt r) ≡ false
    → is_deleted e.target ≡ false
    → count_if gone (set nt r e) ≡ count_if gone nt
set-gone nt r e bound old alive =
    let h = count_if-set gone nt r e bound in let k = rw (old, alive) at h in omega (arith, k)
