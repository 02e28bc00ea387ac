-- ===== src/Primitives/Ring.antt =====
-- `Number_add`, `Number_subtract` and `Number_multiply` on integers.
use native.Mathlib.Nat.{add-mul}
use primordialsoup.Base.{ℕ, ◌+◌, ◌*◌, ◌≡◌, refl, sym, ap, ap₂, ◌∙◌, true, Option, none, some, arith}
use primordialsoup.Base.Int.{
  ℤ, pos, negsuc, ◌+ℤ◌, ◌-ℤ◌, ◌*ℤ◌, int_laws, *ℤ_parts, pos_part, neg_part,
}
use primordialsoup.Large.Signed.{LargeInteger}
use primordialsoup.Large.Signed.Ring.{
  StandsFor, add-StandsFor, subtract-StandsFor, multiply-StandsFor,
}
use primordialsoup.Large.Number.{
  Number, small, number_value, is_smi, is_int64, expand, reduce, new_integer, IsNumber, IsCanonical,
}
use primordialsoup.Large.Number.Expand.{smi-int64}
use primordialsoup.Large.Number.Reduce.{reduce-Canonical, new_integer-Canonical}
use primordialsoup.Math.{OverflowChecks}
use primordialsoup.Primitives.{
  Floats, Outcome, next, failure, done, ◌orelse◌, tag, untag, Object, number, float, boolean, other,
  finish, checked, number_add, number_subtract, number_multiply,
}
use primordialsoup.Primitives.Arms.{Meets, May, integer_arms-Meets}

-- The object is the integer `v` in the smallest representation that holds it.
abbrev pub IsInteger : {D : Type 0} → ℤ → Object D → Type 0
IsInteger v (number n) = (number_value n ≡ v) × IsCanonical n
IsInteger v (float x) = ⊥
IsInteger v (boolean b) = ⊥
IsInteger v (other w) = ⊥

pub tag-is_int64 : (a : ℤ) → is_smi a ≡ true → is_int64 (tag a) ≡ true
unfolding is_smi is_int64 ◌+ℤ◌
tag-is_int64 (pos a) h = ground arith
tag-is_int64 (negsuc a) h = ground arith

-- A word that is the double of an integer is its tagged word, and the integer is small.
pub untag-tag : (s : ℤ) → untag (tag s) ≡ s
unfolding untag ◌+ℤ◌
untag-tag (pos s) = ground arith
untag-tag (negsuc s) = ground arith

pub tag-is_smi : (s : ℤ) → is_int64 (tag s) ≡ true → is_smi s ≡ true
unfolding is_smi is_int64 ◌+ℤ◌
tag-is_smi (pos a) h = ground arith
tag-is_smi (negsuc a) h = ground arith

pub small-IsInteger :
    (D : Type 0) (s v r : ℤ)
    → r ≡ tag s
    → is_int64 r ≡ true
    → s ≡ v
    → IsInteger {D = D} v (number (small (untag r)))
unfolding IsCanonical
small-IsInteger D s v r e fits is =
    let here : untag r ≡ s = ap untag e ∙ untag-tag s in
    (here ∙ is, ap is_smi here ∙ tag-is_smi s (ap is_int64 (sym e) ∙ fits))

pub mint-IsInteger :
    (D : Type 0) (v r : ℤ)
    → r ≡ v
    → is_int64 r ≡ true
    → IsInteger {D = D} v (number (new_integer r))
mint-IsInteger D v r e fits = let c = new_integer-Canonical r fits in (c.0 ∙ e, c.1)

pub lint-IsInteger :
    (D : Type 0) (v : ℤ) (l : LargeInteger)
    → StandsFor v l
    → IsInteger {D = D} v (number (reduce l))
lint-IsInteger D v l h = let c = reduce-Canonical l h.verified in (c.0 ∙ h.is, c.1)

-- The primitive returns it.
abbrev pub Yields : {D : Type 0} → ℤ → Option (Object D) → Type 0
Yields v o = (r : Number) × (o ≡ some (number r)) × (number_value r ≡ v) × IsCanonical r

-- What the arms on integers do is what the primitive does.
pub integer_result :
    {D : Type 0} (v : ℤ) (o p : Outcome (Object D))
    → Meets (IsInteger v) o
    → Yields v (finish (o orelse p))
integer_result v next p h = absurd h
integer_result v failure p h = absurd h
integer_result v (done (number n)) p h = (n, refl, h.0, h.1)
integer_result v (done (float x)) p h = absurd h
integer_result v (done (boolean b)) p h = absurd h
integer_result v (done (other w)) p h = absurd h

tag-add : (a b : ℤ) → tag a +ℤ tag b ≡ tag (a +ℤ b)
tag-add a b = omega int_laws

tag-subtract : (a b : ℤ) → tag a -ℤ tag b ≡ tag (a -ℤ b)
tag-subtract a b = omega int_laws

tag_parts :
    (a : ℤ)
    → (pos_part (tag a) ≡ pos_part a + pos_part a) × (neg_part (tag a) ≡ neg_part a + neg_part a)
unfolding ◌+ℤ◌
tag_parts (pos a) = ground arith
tag_parts (negsuc a) = ground arith

doubled : (p a q : ℕ) → p ≡ a + a → p * q ≡ a * q + a * q
doubled p a q e = ap (λ (t : ℕ). t * q) e ∙ add-mul a a q

tag-multiply : (a b : ℤ) → tag a *ℤ b ≡ tag (a *ℤ b)
tag-multiply a b =
    let (p, n) = tag_parts a in
    omega (
      int_laws,
      *ℤ_parts (tag a) b,
      *ℤ_parts a b,
      doubled _ _ (pos_part b) p,
      doubled _ _ (neg_part b) p,
      doubled _ _ (pos_part b) n,
      doubled _ _ (neg_part b) n,
    )

module _ (fs : Floats) (checks : OverflowChecks) where
  checked-May :
      (P : Object fs.Double → Type 0) (o : Option ℤ) (f : ℤ → Outcome (Object fs.Double))
      → ((r : ℤ) → o ≡ some r → May P (f r))
      → May P (checked fs checks o f)
  checked-May P none f h = tt
  checked-May P (some r) f h = h r refl

  module _ (x y : Number) (hx : IsNumber x) (hy : IsNumber y) where
    number_add-is :
        Yields (number_value x +ℤ number_value y) (number_add fs checks (number x) (number y))
    unfolding number_add
    number_add-is = integer_result _ _ _ (
        integer_arms-Meets (IsInteger (number_value x +ℤ number_value y)) _ _ _ x y
          (record {
            smi_may = λ a b h k e f. checked-May _ _ _ (λ r run.
                let (is, fits) =
                  checks.add_exact (tag a) (tag b) r (tag-is_int64 a h) (tag-is_int64 b k) run in
                small-IsInteger fs.Double (a +ℤ b) _ r (is ∙ tag-add a b) fits (ap₂ ◌+ℤ◌ e f));
            mint_may = λ a b h k e f. checked-May _ _ _ (λ r run.
                let (is, fits) = checks.add_exact a b r h k run in
                mint-IsInteger fs.Double _ r (is ∙ ap₂ ◌+ℤ◌ e f) fits);
            lint_meets = λ l r.
                let s = add-StandsFor (expand x) (expand y) l.verified r.verified in
                lint-IsInteger fs.Double _ _
                  (record { verified = s.verified; is = s.is ∙ ap₂ ◌+ℤ◌ l.is r.is });
          })
          hx hy)

    number_subtract-is :
        Yields (number_value x -ℤ number_value y) (number_subtract fs checks (number x) (number y))
    unfolding number_subtract
    number_subtract-is = integer_result _ _ _ (
        integer_arms-Meets (IsInteger (number_value x -ℤ number_value y)) _ _ _ x y
          (record {
            smi_may = λ a b h k e f. checked-May _ _ _ (λ r run.
                let (is, fits) =
                  checks.subtract_exact (tag a) (tag b) r (tag-is_int64 a h) (tag-is_int64 b k)
                    run in
                small-IsInteger fs.Double (a -ℤ b) _ r (is ∙ tag-subtract a b) fits (ap₂ ◌-ℤ◌ e f));
            mint_may = λ a b h k e f. checked-May _ _ _ (λ r run.
                let (is, fits) = checks.subtract_exact a b r h k run in
                mint-IsInteger fs.Double _ r (is ∙ ap₂ ◌-ℤ◌ e f) fits);
            lint_meets = λ l r.
                let s = subtract-StandsFor (expand x) (expand y) l.verified r.verified in
                lint-IsInteger fs.Double _ _
                  (record { verified = s.verified; is = s.is ∙ ap₂ ◌-ℤ◌ l.is r.is });
          })
          hx hy)

    number_multiply-is :
        Yields (number_value x *ℤ number_value y) (number_multiply fs checks (number x) (number y))
    unfolding number_multiply
    number_multiply-is = integer_result _ _ _ (
        integer_arms-Meets (IsInteger (number_value x *ℤ number_value y)) _ _ _ x y
          (record {
            smi_may = λ a b h k e f. checked-May _ _ _ (λ r run.
                let (is, fits) =
                  checks.multiply_exact (tag a) b r (tag-is_int64 a h) (smi-int64 b k) run in
                small-IsInteger fs.Double (a *ℤ b) _ r (is ∙ tag-multiply a b) fits (ap₂ ◌*ℤ◌ e f));
            mint_may = λ a b h k e f. checked-May _ _ _ (λ r run.
                let (is, fits) = checks.multiply_exact a b r h k run in
                mint-IsInteger fs.Double _ r (is ∙ ap₂ ◌*ℤ◌ e f) fits);
            lint_meets = λ l r.
                let s = multiply-StandsFor (expand x) (expand y) l.verified r.verified in
                lint-IsInteger fs.Double _ _
                  (record { verified = s.verified; is = s.is ∙ ap₂ ◌*ℤ◌ l.is r.is });
          })
          hx hy)

    -- The three operations of two integers return their sum, difference and product, each in the
    -- smallest representation that holds it.
    pub ring_operations-are :
        Yields (number_value x +ℤ number_value y) (number_add fs checks (number x) (number y))
        × Yields
            (number_value x -ℤ number_value y)
            (number_subtract fs checks (number x) (number y))
        × Yields
            (number_value x *ℤ number_value y)
            (number_multiply fs checks (number x) (number y))
    ring_operations-are = (number_add-is, number_subtract-is, number_multiply-is)
