-- ===== src/Large/Divide/Long.antt =====
-- What the long division yields.
use primordialsoup.Base.{
  ℕ, ◌-◌, ◌<◌, ◌≡◌, ◌≢◌, refl, sym, ap, ◌∙◌, Bool, true, false, not, ◌&&◌, inl, inr, List, [], ◌∷◌,
  ◌==◌, if◌then◌else◌, length, Bool-cases, arith, ℕ_discrete,
}
use primordialsoup.Base.Int.{◌+ℤ◌}
use primordialsoup.Large.Digits.{value, IsClamped, IsClamped-pos, value-trim}
use primordialsoup.Large.Sum.{add_one_in_place}
use primordialsoup.Large.Signed.{LargeInteger, integer, signed, same, clamp, add, IsVerified}
use primordialsoup.Large.Signed.Signs.{signed-add_less}
use primordialsoup.Large.Signed.Ring.{clamp-Stands, add-StandsFor}
use primordialsoup.Large.Shift.Round.{HasRoom, add_one-AddsOne}
use primordialsoup.Large.Shift.Left.{positive-SignOf}
use primordialsoup.Large.Divide.{
  Division, result, inexact, Rounding, truncated, floored, exact, Wanted, quotient, is_nil,
  long_result, denormalized,
}
use primordialsoup.Large.Divide.Loop.{IsLoop}
use primordialsoup.Large.Divide.Spec.{
  signed_zero, signed_sign, same_sign, opposite, Divided, truncated-IsDivision,
  floored_other-IsDivision,
}

nil_value : (ds : List ℕ) → IsClamped ds → is_nil ds ≡ (value ds == 0)
nil_value [] c = refl
nil_value (d ∷ ds) c = let p = IsClamped-pos d ds c in some_value (value (d ∷ ds)) p
  where
    some_value : (v : ℕ) → 0 < v → false ≡ (v == 0)
    some_value v h = ground arith

value-clamp : (b : Bool) (ds : List ℕ) → value (clamp b ds).digits ≡ value ds
unfolding clamp
value-clamp b ds = value-trim ds

and_false : (b : Bool) → (b && false) ≡ false
and_false true = refl
and_false false = refl

abbrev outcome : LargeInteger → LargeInteger → ℕ → List ℕ × List ℕ → Rounding → Wanted → Division
outcome a b s p op wanted = long_result a b op wanted s p

module _ (a b : LargeInteger) (ha : IsVerified a) (hb : IsVerified b) (s : ℕ) (p : List ℕ × List ℕ)
    (h : IsLoop s (length b.digits) a.digits b.digits p.0 p.1) where
  abbrev rest : List ℕ
  rest = denormalized (length b.digits) s p.1

  rest_nil : is_nil (clamp a.negative rest).digits ≡ (value rest == 0)
  rest_nil =
      let r = clamp-Stands a.negative rest h.in_range in
      nil_value (clamp a.negative rest).digits r.verified.top
      ∙ ap (λ (t : ℕ). t == 0) (value-clamp a.negative rest)

  pub long_truncated-Divided :
      Divided (outcome a b s p) truncated (integer a) (integer a) (integer b)
  long_truncated-Divided =
      let (qs, us) = p in
      let q = clamp-Stands (not (same a.negative b.negative)) qs h.quotient_range in
      let r = clamp-Stands a.negative rest h.in_range in
      record {
        q = clamp (not (same a.negative b.negative)) qs;
        r = clamp a.negative rest;
        quotient_is = refl;
        remainder_is = refl;
        q_verified = q.verified;
        r_verified = r.verified;
        division =
            rw (q.is, r.is)
              (truncated-IsDivision a.negative b.negative (value a.digits) (value b.digits)
                (value qs) (value rest) h.is h.smaller);
      }

  pub long_exact-is : outcome a b s p exact quotient ≡ (
      if is_nil long_truncated-Divided.r.digits then result long_truncated-Divided.q else inexact)
  unfolding long_truncated-Divided
  long_exact-is = rw (h.zero_test, rest_nil) refl

  zero_rest : value rest ≡ 0 → (value rest == 0) ≡ true
  zero_rest z = rw z refl

  some_rest : value rest ≢ 0 → (value rest == 0) ≡ false
  some_rest nz = decided (value rest) nz
    where
      decided : (v : ℕ) → v ≢ 0 → (v == 0) ≡ false
      decided v g = ground arith

  no_rounding :
      (value rest ≢ 0 → same a.negative b.negative ≡ true)
      → (not (value rest == 0) && not (same a.negative b.negative)) ≡ false
  no_rounding keeps = elim (ℕ_discrete (value rest) 0) [
    | yes z ↦ rw (zero_rest z) refl
    | no nz ↦ rw (keeps nz) (and_false _)
  ]

  -- The remainder is 0 or the signs are the same: the quotient is not rounded
  floored_plain :
      (value rest ≢ 0 → same a.negative b.negative ≡ true)
      → Divided (outcome a b s p) floored (integer b) (integer a) (integer b)
  floored_plain keeps =
      let q = clamp-Stands (not (same a.negative b.negative)) p.0 h.quotient_range in
      let r = clamp-Stands a.negative rest h.in_range in
      let whole =
        truncated-IsDivision a.negative b.negative (value a.digits) (value b.digits) (value p.0)
          (value rest) h.is h.smaller in
      record {
        q = clamp (not (same a.negative b.negative)) p.0;
        r = clamp a.negative rest;
        quotient_is = rw (h.zero_test, no_rounding keeps) refl;
        remainder_is = rw (rest_nil, no_rounding keeps) refl;
        q_verified = q.verified;
        r_verified = r.verified;
        division =
            rw (q.is, r.is)
              (record {
                is = whole.is;
                smaller = whole.smaller;
                sign = elim (ℕ_discrete (value rest) 0) [
                  | yes z ↦ inl (ap (signed a.negative) z ∙ signed_zero a.negative)
                  | no nz ↦ inr (
                      signed_sign a.negative _ (omega arith)
                      ∙ same_sign _ _ (keeps nz)
                      ∙ sym (signed_sign b.negative _ (omega (arith, h.smaller))))
                ];
              });
      }

  -- or else it is.
  floored_down :
      value rest ≢ 0
      → same a.negative b.negative ≡ false
      → HasRoom (value p.0)
      → Divided (outcome a b s p) floored (integer b) (integer a) (integer b)
  floored_down nz differ room =
      let k = clamp-Stands true p.0 h.quotient_range in
      let same_value = value-clamp true p.0 in
      let one =
        add_one-AddsOne (clamp true p.0).digits k.verified.in_range k.verified.top
          (rw same_value room) in
      let r = clamp-Stands a.negative rest h.in_range in
      let sum = add-StandsFor (clamp a.negative rest) b r.verified hb in
      let signs = opposite a.negative b.negative differ in
      let is : signed b.negative (value b.digits - value rest)
          ≡ signed a.negative (value rest) +ℤ integer b =
        ap (λ (t : Bool). signed t (value b.digits - value rest)) (sym signs.1)
        ∙ signed-add_less a.negative (value rest) (value b.digits) (omega (arith, h.smaller))
        ∙ ap (λ (t : Bool). signed a.negative (value rest) +ℤ signed t (value b.digits)) signs.1 in
      record {
        q = record { negative = true; digits = add_one_in_place (clamp true p.0).digits };
        r = add (clamp a.negative rest) b;
        quotient_is = rw (h.zero_test, some_rest nz, differ) refl;
        remainder_is = rw (rest_nil, some_rest nz, differ) refl;
        q_verified = record {
          in_range = one.range;
          top = one.top;
          sign = positive-SignOf _ _ (rw (one.is) (omega arith));
        };
        r_verified = sum.verified;
        division =
            rw (one.is, same_value, sum.is, r.is, ← is)
              (floored_other-IsDivision a.negative b.negative (value a.digits) (value b.digits)
                (value p.0) (value rest) h.is h.smaller differ (omega arith));
      }

  pub long_floored-Divided :
      (same a.negative b.negative ≡ false → value rest ≢ 0 → HasRoom (value p.0))
      → Divided (outcome a b s p) floored (integer b) (integer a) (integer b)
  long_floored-Divided room = elim (Bool-cases (same a.negative b.negative)) [
    | inl e ↦ floored_plain (λ nz. e)
    | inr e ↦ elim (ℕ_discrete (value rest) 0) [
      | yes z ↦ floored_plain (λ nz. absurd (nz z))
      | no nz ↦ floored_down nz e (room e nz)
    ]
  ]
