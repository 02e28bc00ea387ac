-- ===== src/Large/Divide/Short.antt =====
-- `Divide` of a dividend that has fewer digits than the divisor.
use primordialsoup.Base.{
  true-false, ℕ, ◌+◌, ◌-◌, ◌*◌, ◌<◌, ◌≡◌, refl, sym, ap, ◌∙◌, Bool, true, false, not, ◌||◌, ◌⊎◌,
  inl, inr, List, [], ◌∷◌, length, if◌then◌else◌, Bool-cases, arith, ℕ_discrete,
}
use primordialsoup.Base.Int.{pos, ◌+ℤ◌}
use primordialsoup.Large.Digits.{value, IsClamped, IsClamped-pos, value-lt_of_length}
use primordialsoup.Large.Signed.{
  LargeInteger, integer, signed, same, add, is_negative, IsVerified, SignOf,
}
use primordialsoup.Large.Signed.Signs.{signed-add_less}
use primordialsoup.Large.Signed.Ring.{add-StandsFor}
use primordialsoup.Large.Divide.{
  result, inexact, truncated, floored, exact, quotient, large_zero, one_digit, is_nil,
  rounds_to_zero, divide_short,
}
use primordialsoup.Large.Divide.Spec.{
  IsDivision, Divided, signed_zero, signed_sign, same_sign, opposite, truncated-IsDivision,
  floored_other-IsDivision,
}

large_zero-IsVerified : IsVerified large_zero
large_zero-IsVerified = record { in_range = tt; top = tt; sign = refl }

minus_one-IsVerified : IsVerified (one_digit true 1)
minus_one-IsVerified = record { in_range = (omega arith, tt); top = omega arith; sign = tt }

zero_is :
    (b : Bool) (ds : List ℕ)
    → SignOf b ds
    → (if is_nil ds then result (record { negative = b; digits = ds }) else inexact)
      ≡ (if is_nil ds then result large_zero else inexact)
zero_is b [] h = ap (λ (t : Bool). result (record { negative = t; digits = [] })) h
zero_is b (d ∷ ds) h = refl

-- Where the dividend is 0 or the signs are the same, its sign is that of the divisor.
nil_or_same :
    (b c : Bool) (ds es : List ℕ)
    → (is_nil ds || same b c) ≡ true
    → value ds < value es
    → (signed b (value ds) ≡ pos 0)
      ⊎ (is_negative (signed b (value ds)) ≡ is_negative (signed b (value ds)))
    → (signed b (value ds) ≡ pos 0)
      ⊎ (is_negative (signed b (value ds)) ≡ is_negative (signed c (value es)))
nil_or_same b c [] es h lt s = inl (signed_zero b)
nil_or_same b c (d ∷ ds) es h lt s = elim (ℕ_discrete (value (d ∷ ds)) 0) [
  | yes z ↦ inl (ap (signed b) z ∙ signed_zero b)
  | no nz ↦
      inr (signed_sign b _ (omega arith) ∙ same_sign b c h ∙ sym (signed_sign c _ (omega arith)))
]

neither :
    (ds : List ℕ) (t : Bool)
    → IsClamped ds
    → (is_nil ds || t) ≡ false
    → (0 < value ds) × (t ≡ false)
neither [] t c h = absurd (true-false h)
neither (d ∷ ds) t c h = (IsClamped-pos d ds c, h)

module _ (a b : LargeInteger) (ha : IsVerified a) (hb : IsVerified b)
    (less : length a.digits < length b.digits) where
  below : value a.digits < value b.digits
  below = value-lt_of_length a.digits b.digits ha.in_range hb.top less

  whole : value a.digits ≡ value b.digits * 0 + value a.digits
  whole = omega arith

  zero_quotient : IsDivision (integer a) (integer a) (integer b) (integer large_zero) (integer a)
  zero_quotient = rw (← signed_zero (not (same a.negative b.negative))) (
      truncated-IsDivision a.negative b.negative (value a.digits) (value b.digits) 0
        (value a.digits) whole below)

  pub short_truncated-Divided :
      Divided (divide_short a b) truncated (integer a) (integer a) (integer b)
  unfolding divide_short
  short_truncated-Divided = record {
    q = large_zero;
    r = a;
    quotient_is = refl;
    remainder_is = refl;
    q_verified = large_zero-IsVerified;
    r_verified = ha;
    division = zero_quotient;
  }

  pub short_exact-is : divide_short a b exact quotient ≡ (
      if is_nil short_truncated-Divided.r.digits then result short_truncated-Divided.q else inexact)
  unfolding divide_short short_truncated-Divided
  short_exact-is = zero_is a.negative a.digits ha.sign

  -- The quotient is rounded to 0
  floored_zero :
      rounds_to_zero a b ≡ true
      → Divided (divide_short a b) floored (integer b) (integer a) (integer b)
  unfolding divide_short
  floored_zero h = record {
    q = large_zero;
    r = a;
    quotient_is = rw h refl;
    remainder_is = rw h refl;
    q_verified = large_zero-IsVerified;
    r_verified = ha;
    division = record {
      is = zero_quotient.is;
      smaller = zero_quotient.smaller;
      sign = nil_or_same a.negative b.negative a.digits b.digits h below zero_quotient.sign;
    };
  }

  -- or down.
  floored_down :
      rounds_to_zero a b ≡ false
      → Divided (divide_short a b) floored (integer b) (integer a) (integer b)
  unfolding divide_short
  floored_down h =
      let (some_a, differ) = neither a.digits (same a.negative b.negative) ha.top h in
      let sum = add-StandsFor a b ha hb in
      let signs = opposite a.negative b.negative differ in
      let is : signed b.negative (value b.digits - value a.digits) ≡ integer a +ℤ integer b =
        ap (λ (t : Bool). signed t (value b.digits - value a.digits)) (sym signs.1)
        ∙ signed-add_less a.negative (value a.digits) (value b.digits) (omega (arith, below))
        ∙ ap (λ (t : Bool). integer a +ℤ signed t (value b.digits)) signs.1 in
      record {
        q = one_digit true 1;
        r = add a b;
        quotient_is = rw h refl;
        remainder_is = rw h refl;
        q_verified = minus_one-IsVerified;
        r_verified = sum.verified;
        division =
            rw (sum.is, ← is)
              (floored_other-IsDivision a.negative b.negative (value a.digits) (value b.digits) 0
                (value a.digits) whole below differ some_a);
      }

  pub short_floored-Divided : Divided (divide_short a b) floored (integer b) (integer a) (integer b)
  short_floored-Divided = elim (Bool-cases (rounds_to_zero a b)) [
    | inl h ↦ floored_zero h
    | inr h ↦ floored_down h
  ]
