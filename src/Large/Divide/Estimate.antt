-- ===== src/Large/Divide/Estimate.antt =====
-- The digit of the quotient that a round of the long division estimates.
use native.Mathlib.Nat.{
  mul-add, mul_left_comm, mul_comm, add-mul, mul-le-mul, mul-le-mul_left, mul-le-mul_right,
}
use primordialsoup.Base.{
  ℕ, zero, suc, ◌+◌, ◌-◌, ◌*◌, ◌≤◌, ◌<◌, ◌≡◌, refl, sym, ap, ◌∙◌, Bool, true, false, ◌||◌, ◌⊎◌, inl,
  inr, ltb, leb, u64, Bool-cases, arith, dec_lt,
}
use primordialsoup.Large.Digits.{digit_base}
use primordialsoup.Large.Divide.{estimate}

-- The dividend `u` and the divisor `v` by their highest digits, with what is below them in terms of
-- the weight `w`.
pub record IsLeading (v1 v2 a p u v w : ℕ) : Type 0 where
  pub vl : ℕ
  pub ul : ℕ
  pub v_is : v ≡ w * (v1 * 4294967296 + v2) + vl
  pub u_is : u ≡ w * (4294967296 * p + a) + ul
  pub vl_less : vl < w
  pub ul_less : ul < w
  pub less : u < 4294967296 * v
  pub v1_least : 2147483648 ≤ v1
  pub v1_digit : v1 < 4294967296
  pub v2_digit : v2 < 4294967296
  pub a_digit : a < 4294967296

-- The digit is that of the quotient or one more.
pub record IsEstimate (u v q : ℕ) : Type 0 where
  pub digit : q < 4294967296
  pub not_less : u < v + q * v
  pub not_more : q * v ≤ u + v

test_cases :
    (q r a v2 : ℕ)
    → r < 4294967296
    → a < 4294967296
    → v2 < 4294967296
    → (b : Bool) → (leb digit_base q || ltb (u64 (digit_base * r) + a) (u64 (q * v2))) ≡ b
    → (x : ℕ) → x ≡ q * v2
    → (q < 4294967296 → x < 18446744073709551616)
    → ((b ≡ true) × ((4294967296 ≤ q) ⊎ (4294967296 * r + a < x)))
      ⊎ ((b ≡ false) × (q < 4294967296) × (x ≤ 4294967296 * r + a))
test_cases q r a v2 hr ha hv b e x ex small = elim (dec_lt q 4294967296) [
  | no h ↦ inl (ground arith, inl (omega arith))
  | yes h ↦
      let s = small h in
      elim (dec_lt (4294967296 * r + a) x) [
        | yes l ↦ inl (ground arith, inr l)
        | no l ↦ inr (ground arith, h, omega arith)
      ]
]

product_below : (q v : ℕ) → q < 4294967296 → v < 4294967296 → q * v ≤ 18446744065119617025
product_below q v h k =
    let le : q * v ≤ 4294967295 * 4294967295 =
      mul-le-mul {n₂ = 4294967295} {m₂ = 4294967295} (omega arith) (omega arith) in
    omega arith

spread : (q v1 v2 : ℕ) → q * (v1 * 4294967296 + v2) ≡ 4294967296 * (q * v1) + q * v2
spread q v1 v2 = omega (
  arith,
  mul-add q (v1 * 4294967296) v2,
  ap (λ (t : ℕ). q * t) (mul_comm v1 4294967296),
  mul_left_comm q 4294967296 v1,
)

module _ {v1 v2 a p u v w : ℕ} (h : IsLeading v1 v2 a p u v w) where
  top_less : p ≤ v1 * 4294967296 + v2
  top_less = elim (dec_lt (v1 * 4294967296 + v2) p) [
    | yes l ↦
        let le : w * (4294967296 * (v1 * 4294967296 + v2 + 1)) ≤ w * (4294967296 * p + a) =
          mul-le-mul_left w (omega arith) in
        absurd (
          omega (
            arith,
            le,
            h.v_is,
            h.u_is,
            h.less,
            h.vl_less,
            mul_left_comm w 4294967296 (v1 * 4294967296 + v2 + 1),
            mul-add w (v1 * 4294967296 + v2) 1,
          ))
    | no l ↦ omega arith
  ]

  -- An estimate that is lowered is too large.
  exceeds :
      (q r : ℕ) → q * v1 + r ≡ p → (4294967296 ≤ q) ⊎ (4294967296 * r + a < q * v2) → u < q * v
  exceeds q r e (inl l) =
      let le : 4294967296 * v ≤ q * v = mul-le-mul_right v l in omega (arith, le, h.less)
  exceeds q r e (inr l) =
      let t = v1 * 4294967296 + v2 in
      let le : w * (4294967296 * p + a + 1) ≤ w * (q * t) =
        mul-le-mul_left w (omega (arith, spread q v1 v2)) in
      let ge : q * (w * t) ≤ q * v = mul-le-mul_left q (omega (arith, h.v_is)) in
      omega
        (arith, le, ge, mul_left_comm w q t, mul-add w (4294967296 * p + a) 1, h.u_is, h.ul_less)

  -- One that is not is at most one too large.
  accepted :
      (q r : ℕ) → q * v1 + r ≡ p → q < 4294967296 → q * v2 ≤ 4294967296 * r + a → q * v ≤ u + v
  accepted q r e d l =
      let t = v1 * 4294967296 + v2 in
      let le : w * (q * t) ≤ w * (4294967296 * p + a) =
        mul-le-mul_left w (omega (arith, spread q v1 v2)) in
      let low : q * h.vl ≤ q * w = mul-le-mul_left q (omega (arith, h.vl_less)) in
      let high : w * q ≤ w * t = mul-le-mul_left w (omega (arith, h.v1_least)) in
      omega (
        arith,
        le,
        low,
        high,
        mul_left_comm w q t,
        mul_comm w q,
        ap (λ (x : ℕ). q * x) h.v_is,
        mul-add q (w * t) h.vl,
        h.u_is,
        h.v_is,
      )

  last_digit : (q r : ℕ) → q * v1 + r ≡ p → 4294967296 ≤ r → q < 4294967296
  last_digit q r e l = elim (dec_lt q 4294967296) [
    | yes d ↦ d
    | no d ↦
        let le : 4294967296 * v1 ≤ q * v1 = mul-le-mul_right v1 (omega arith) in
        absurd (omega (arith, le, top_less, h.v2_digit))
  ]

  lower : (q : ℕ) → u < q * v → q ≡ suc (q - 1)
  lower zero l = absurd (omega arith)
  lower (suc q) l = omega arith

  pub estimate-IsEstimate :
      (rounds q r : ℕ)
      → q * v1 + r ≡ p
      → u < v + q * v
      → r < 4294967296
      → 4294967296 ≤ r + rounds * v1
      → IsEstimate u v (estimate rounds v1 v2 a q r)
  unfolding estimate
  estimate-IsEstimate zero q r e above less fuel = absurd (omega arith)
  estimate-IsEstimate (suc rounds) q r e above less fuel =
      elim (test_cases q r a v2 less h.a_digit h.v2_digit _ refl (q * v2) refl
        (λ d. omega (arith, product_below q v2 d h.v2_digit))) [
          | inl (yes_lower, why) ↦
              let over = exceeds q r e why in
              let is : q ≡ suc (q - 1) = lower q over in
              let split : q * v1 ≡ v1 + (q - 1) * v1 =
                ap (λ (t : ℕ). t * v1) is ∙ omega (arith, add-mul 1 (q - 1) v1) in
              let split_v : q * v ≡ v + (q - 1) * v =
                ap (λ (t : ℕ). t * v) is ∙ omega (arith, add-mul 1 (q - 1) v) in
              let next : (q - 1) * v1 + (r + v1) ≡ p = omega (arith, split) in
              rw yes_lower (elim (Bool-cases (ltb (r + v1) digit_base)) [
                | inl l ↦ rw l (
                    estimate-IsEstimate rounds (q - 1) (r + v1) next (omega (arith, split_v))
                      (ground arith) (omega (arith, fuel, add-mul 1 rounds v1)))
                | inr l ↦ rw l (
                    let d = last_digit (q - 1) (r + v1) next (ground arith) in
                    record {
                      digit = d;
                      not_less = omega (arith, split_v, over);
                      not_more =
                          accepted (q - 1) (r + v1) next d
                            (let s = product_below (q - 1) v2 d h.v2_digit in ground arith);
                    })
              ])
          | inr (no_lower, digit, le) ↦
              rw no_lower
                (record { digit = digit; not_less = above; not_more = accepted q r e digit le })
        ]

  pub first_estimate : (q : ℕ) → p < q * v1 → u < q * v
  first_estimate q l =
      let t = v1 * 4294967296 + v2 in
      let le : w * (4294967296 * p + a + 1) ≤ w * (q * t) =
        mul-le-mul_left w (omega (arith, spread q v1 v2, h.a_digit)) in
      let ge : q * (w * t) ≤ q * v = mul-le-mul_left q (omega (arith, h.v_is)) in
      omega
        (arith, le, ge, mul_left_comm w q t, mul-add w (4294967296 * p + a) 1, h.u_is, h.ul_less)

-- One round more changes nothing where the rounds are enough.
enough :
    (rounds v1 v2 u q r : ℕ)
    → r < 4294967296
    → 4294967296 ≤ r + rounds * v1
    → estimate (suc rounds) v1 v2 u q r ≡ estimate rounds v1 v2 u q r
unfolding estimate
enough zero v1 v2 u q r less fuel = absurd (omega arith)
enough (suc rounds) v1 v2 u q r less fuel = elim (Bool-cases (ltb (r + v1) digit_base)) [
  | inl e ↦
      let ih =
        enough rounds v1 v2 u (q - 1) (r + v1) (ground arith)
          (omega (arith, fuel, add-mul 1 rounds v1)) in
      rw (ih, e) refl
  | inr e ↦ rw e refl
]

-- The loop ends: with a divisor whose highest bit is set, any number of rounds from 2 on estimates
-- the same digit as the 3 that a round of the division takes.
pub estimate-Ends :
    (rounds v1 v2 u q r : ℕ)
    → 2147483648 ≤ v1
    → r < 4294967296
    → estimate (suc (suc rounds)) v1 v2 u q r ≡ estimate 3 v1 v2 u q r
estimate-Ends zero v1 v2 u q r top less = sym (enough 2 v1 v2 u q r less (omega arith))
estimate-Ends (suc rounds) v1 v2 u q r top less =
    let le : 2 * v1 ≤ suc (suc rounds) * v1 = mul-le-mul_right v1 (omega arith) in
    enough (suc (suc rounds)) v1 v2 u q r less (omega arith)
    ∙ estimate-Ends rounds v1 v2 u q r top less
