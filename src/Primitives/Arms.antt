-- ===== src/Primitives/Arms.antt =====
-- What the arms have to do, for the primitive to do it for all integers.
use primordialsoup.Base.{◌≡◌, refl, true}
use primordialsoup.Base.Int.{ℤ}
use primordialsoup.Large.Signed.{LargeInteger}
use primordialsoup.Large.Signed.Ring.{StandsFor}
use primordialsoup.Large.Number.{
  Number, small, medium, large, number_value, is_smi, is_int64, expand, IsNumber,
}
use primordialsoup.Large.Number.Expand.{expand-StandsFor, smi-int64}
use primordialsoup.Primitives.{
  Outcome, next, failure, done, ◌orelse◌, small_value, mint_value, both, integer_arms,
}

module _ {A : Type 0} where
  -- The outcome is a result with the property.
  abbrev pub Meets : (A → Type 0) → Outcome A → Type 0
  Meets P next = ⊥
  Meets P failure = ⊥
  Meets P (done a) = P a

  -- It falls through, or is such a result.
  abbrev pub May : (A → Type 0) → Outcome A → Type 0
  May P next = Unit {0}
  May P failure = ⊥
  May P (done a) = P a

  Meets-orelse : (P : A → Type 0) (o p : Outcome A) → May P o → Meets P p → Meets P (o orelse p)
  Meets-orelse P next p h k = k
  Meets-orelse P failure p h k = h
  Meets-orelse P (done a) p h k = h

  small-May :
      (P : A → Type 0) (f : ℤ → ℤ → Outcome A) (x y : Number)
      → IsNumber x
      → IsNumber y
      → ((a b : ℤ)
          → is_smi a ≡ true
          → is_smi b ≡ true
          → a ≡ number_value x
          → b ≡ number_value y
          → May P (f a b))
      → May P (both (small_value x) (small_value y) f)
  unfolding IsNumber
  small-May P f (small a) (small b) h k may = may a b h k refl refl
  small-May P f (small a) (medium b) h k may = tt
  small-May P f (small a) (large r) h k may = tt
  small-May P f (medium a) y h k may = tt
  small-May P f (large l) y h k may = tt

  mint-May :
      (P : A → Type 0) (f : ℤ → ℤ → Outcome A) (x y : Number)
      → IsNumber x
      → IsNumber y
      → ((a b : ℤ)
          → is_int64 a ≡ true
          → is_int64 b ≡ true
          → a ≡ number_value x
          → b ≡ number_value y
          → May P (f a b))
      → May P (both (mint_value x) (mint_value y) f)
  unfolding IsNumber
  mint-May P f (small a) (small b) h k may = may a b (smi-int64 a h) (smi-int64 b k) refl refl
  mint-May P f (small a) (medium b) h k may = may a b (smi-int64 a h) k refl refl
  mint-May P f (medium a) (small b) h k may = may a b h (smi-int64 b k) refl refl
  mint-May P f (medium a) (medium b) h k may = may a b h k refl refl
  mint-May P f (small a) (large r) h k may = tt
  mint-May P f (medium a) (large r) h k may = tt
  mint-May P f (large l) y h k may = tt

  module _ (P : A → Type 0) (smi mint : ℤ → ℤ → Outcome A)
      (lint : LargeInteger → LargeInteger → Outcome A) (x y : Number) where
    -- The operands that an arm gets.
    pub record Operands : Type 0 where
      pub smi_may :
          (a b : ℤ)
          → is_smi a ≡ true
          → is_smi b ≡ true
          → a ≡ number_value x
          → b ≡ number_value y
          → May P (smi a b)
      pub mint_may :
          (a b : ℤ)
          → is_int64 a ≡ true
          → is_int64 b ≡ true
          → a ≡ number_value x
          → b ≡ number_value y
          → May P (mint a b)
      pub lint_meets :
          StandsFor (number_value x) (expand x)
          → StandsFor (number_value y) (expand y)
          → Meets P (lint (expand x) (expand y))

    pub integer_arms-Meets :
        Operands → IsNumber x → IsNumber y → Meets P (integer_arms smi mint lint x y)
    unfolding integer_arms
    integer_arms-Meets o h k = Meets-orelse P _ _ (small-May P smi x y h k o.smi_may) (
        Meets-orelse P _ _ (mint-May P mint x y h k o.mint_may)
          (o.lint_meets (expand-StandsFor x h) (expand-StandsFor y k)))
