-- ===== src/Large/Divide/Single.antt =====
-- `Divide` by a divisor of one digit.
use primordialsoup.Base.{
  ℕ, ◌+◌, ◌-◌, ◌*◌, ◌<◌, ◌≡◌, ◌≢◌, refl, sym, ap, ◌∙◌, Bool, true, false, not, inl, inr, List, ◌==◌,
  if◌then◌else◌, Bool-cases, arith, ℕ_discrete,
}
use primordialsoup.Base.Int.{ℤ, ◌+ℤ◌, ◌*ℤ◌}
use primordialsoup.Large.Digits.{value}
use primordialsoup.Large.Sum.{add_one_in_place}
use primordialsoup.Large.Signed.{LargeInteger, integer, signed, same, clamp, IsVerified}
use primordialsoup.Large.Signed.Ring.{clamp-Stands, clamp-pos}
use primordialsoup.Large.Shift.Round.{HasRoom, add_one-AddsOne}
use primordialsoup.Large.Shift.Left.{positive-SignOf}
use primordialsoup.Large.Divide.{
  Division, result, inexact, Rounding, truncated, floored, exact, Wanted, quotient, large_zero,
  one_digit, is_nil, single_result,
}
use primordialsoup.Large.Divide.Row.{Parts}
use primordialsoup.Large.Divide.Spec.{
  signed_zero, signed-absolute, Divided, truncated-IsDivision, floored_same-IsDivision,
  floored_other-IsDivision,
}

one_digit-IsVerified : (b : Bool) (r : ℕ) → 0 < r → r < 4294967296 → IsVerified (one_digit b r)
one_digit-IsVerified b r h k = record { in_range = (k, tt); top = omega arith; sign = tt }

large_zero-IsVerified : IsVerified large_zero
large_zero-IsVerified = record { in_range = tt; top = tt; sign = refl }

one_digit-is : (b : Bool) (r : ℕ) → integer (one_digit b r) ≡ signed b r
one_digit-is b r = ap (signed b) (let e : r + 4294967296 * 0 ≡ r = omega arith in e)

zero_test : (n : ℕ) → n ≢ 0 → (n == 0) ≡ false
zero_test n h = ground arith

if-result :
    (b : Bool) (x y : LargeInteger)
    → (if b then result x else result y) ≡ result (if b then x else y)
if-result true x y = refl
if-result false x y = refl

-- The digit of a remainder, or none if it is 0.
remainder_of : Bool → ℕ → LargeInteger
remainder_of b r = if r == 0 then large_zero else one_digit b r

remainder_of-is :
    (b : Bool) (r : ℕ)
    → r < 4294967296
    → IsVerified (remainder_of b r)
      × (integer (remainder_of b r) ≡ signed b r)
      × (is_nil (remainder_of b r).digits ≡ (r == 0))
unfolding remainder_of
remainder_of-is b r h = elim (ℕ_discrete r 0) [
  | yes z ↦ rw z (large_zero-IsVerified, sym (signed_zero b), refl)
  | no nz ↦ rw (zero_test r nz) (one_digit-IsVerified b r (omega arith) h, one_digit-is b r, refl)
]

abbrev pub single_cases : Bool → Bool → ℕ → List ℕ × ℕ → Rounding → Wanted → Division
single_cases na nb d p op wanted = single_result na nb d op wanted p

module _ (na nb : Bool) (d v : ℕ) (small_d : d < 4294967296) (p : List ℕ × ℕ)
    (h : Parts d v p) where
  pub truncated-Divided :
      Divided (single_cases na nb d p) truncated (signed na v) (signed na v) (signed nb d)
  unfolding remainder_of
  truncated-Divided =
      let (qs, r) = p in
      let q = clamp-Stands (not (same na nb)) qs h.in_range in
      let (verified, is, nil) = remainder_of-is na r (omega (arith, h.less)) in
      record {
        q = clamp (not (same na nb)) qs;
        r = remainder_of na r;
        quotient_is = refl;
        remainder_is = if-result (r == 0) large_zero (one_digit na r);
        q_verified = q.verified;
        r_verified = verified;
        division = rw (q.is, is) (truncated-IsDivision na nb v d (value qs) r h.is h.less);
      }

  pub exact-is :
      single_cases na nb d p exact quotient
      ≡ (if is_nil truncated-Divided.r.digits then result truncated-Divided.q else inexact)
  unfolding truncated-Divided
  exact-is = rw ((remainder_of-is na p.1 (omega (arith, h.less))).2)

  -- What the rounding of a quotient takes: a quotient that is not 0, and room for its successor.
  pub floored-Divided :
      (same na nb ≡ false → p.1 ≢ 0 → (0 < value p.0) × HasRoom (value p.0))
      → Divided (single_cases na nb d p) floored (signed nb d) (signed na v) (signed nb d)
  unfolding remainder_of
  floored-Divided room = elim (ℕ_discrete p.1 0) [
    | yes z ↦
        let q = clamp-Stands (not (same na nb)) p.0 h.in_range in
        let whole = truncated-IsDivision na nb v d (value p.0) p.1 h.is h.less in
        record {
          q = clamp (not (same na nb)) p.0;
          r = large_zero;
          quotient_is = rw z refl;
          remainder_is = rw z refl;
          q_verified = q.verified;
          r_verified = large_zero-IsVerified;
          division = rw (q.is) (record {
            is =
                whole.is
                ∙ ap (λ (t : ℤ). signed nb d *ℤ signed (not (same na nb)) (value p.0) +ℤ t)
                    (ap (signed na) z ∙ signed_zero na);
            smaller = rw (signed-absolute nb d) (omega (arith, h.less));
            sign = inl refl;
          });
        }
    | no nz ↦ elim (Bool-cases (same na nb)) [
      | inl s ↦
          let q = clamp-Stands (not (same na nb)) p.0 h.in_range in
          record {
            q = clamp (not (same na nb)) p.0;
            r = one_digit nb p.1;
            quotient_is = rw (zero_test p.1 nz, s) refl;
            remainder_is = rw (zero_test p.1 nz, s) refl;
            q_verified = q.verified;
            r_verified = one_digit-IsVerified nb p.1 (omega arith) (omega (arith, h.less));
            division =
                rw (q.is, one_digit-is nb p.1)
                  (floored_same-IsDivision na nb v d (value p.0) p.1 h.is h.less s);
          }
      | inr s ↦
          let (some_q, fits) = room s nz in
          let (negative, same_value) = clamp-pos true p.0 some_q in
          let k = clamp-Stands true p.0 h.in_range in
          let one =
            add_one-AddsOne (clamp true p.0).digits k.verified.in_range k.verified.top
              (rw same_value fits) in
          record {
            q = record {
              negative = (clamp true p.0).negative;
              digits = add_one_in_place (clamp true p.0).digits;
            };
            r = one_digit nb (d - p.1);
            quotient_is = rw (zero_test p.1 nz, s) refl;
            remainder_is = rw (zero_test p.1 nz, s) refl;
            q_verified = record {
              in_range = one.range;
              top = one.top;
              sign = positive-SignOf _ _ (rw (one.is) (omega arith));
            };
            r_verified = one_digit-IsVerified nb (d - p.1) (omega (arith, h.less)) (omega arith);
            division =
                rw (negative, one.is, same_value, one_digit-is nb (d - p.1))
                  (floored_other-IsDivision na nb v d (value p.0) p.1 h.is h.less s (omega arith));
          }
    ]
  ]
