-- ===== src/Large/Divide/Normal.antt =====
-- The digits that the long division shifts, before and after the loop.
use native.Mathlib.Nat.{
  add-mul, mul_comm, mul_assoc, mul-le-mul_left, mul-le-mul_right, pow-suc, pow-le-pow_right,
  div-add-mod', mul-zero,
}
use primordialsoup.Base.{
  ℕ, zero, suc, ◌+◌, ◌-◌, ◌*◌, ◌/◌, ◌%◌, ◌^◌, ◌≤◌, ◌<◌, ◌≡◌, refl, sym, ap, ◌∙◌, ◌&&◌, List, [],
  ◌∷◌, ◌==◌, ltb, length, get_or, take, drop, bit_or, arith, dec_lt, Bool-cases, inl, inr,
}
use primordialsoup.Base.Powers.{two-pow_add, two-pow_pos}
use primordialsoup.Base.Bits.Split.{bit_or_comm}
use primordialsoup.Large.Digits.{value, weight, IsDigits}
use primordialsoup.Large.Shift.Digit.{digit-is, word, carry_bound, round_value, digit_bound}
use primordialsoup.Math.{highest_bit_of}
use primordialsoup.Math.Overflow.{below_power}
use primordialsoup.Large.Divide.{normalized, denormalized, countl_zero, all_zero}
use primordialsoup.Large.Divide.Round.{digits-Splits}

-- What is shifted out of the digits.
abbrev pub carried : ℕ → ℕ → List ℕ → ℕ
carried down carry [] = carry
carried down carry (d ∷ ds) = carried down (d / 2 ^ down) ds

abbrev pub last : ℕ → List ℕ → ℕ
last d ds = get_or (d ∷ ds) (length ds) 0

pub carried-last :
    (down carry d : ℕ) (ds : List ℕ) → carried down carry (d ∷ ds) ≡ last d ds / 2 ^ down
carried-last down carry d [] = refl
carried-last down carry d (e ∷ ds) = carried-last down (d / 2 ^ down) e ds

regroup :
    (x v w t c s : ℕ) → v + w * t ≡ s → x + 4294967296 * v + 4294967296 * w * t ≡ x + 4294967296 * s
regroup x v w t c s e = omega (arith, e, mul_assoc 4294967296 w t)

module _ (up down : ℕ) (both : up + down ≡ 32) (same : 32 - up ≡ down) where
  pub normalized-is :
      (carry : ℕ) (ds : List ℕ)
      → carry < 2 ^ up
      → IsDigits ds
      → (value (normalized up carry ds) + weight ds * carried down carry ds
          ≡ carry + 2 ^ up * value ds)
        × IsDigits (normalized up carry ds)
        × (length (normalized up carry ds) ≡ length ds)
  unfolding normalized
  normalized-is carry [] h k = (omega (arith, mul-zero (2 ^ up)), tt, refl)
  normalized-is carry (d ∷ ds) h k =
      let ih =
        normalized-is (d / 2 ^ down) ds
          (carry_bound (2 ^ up) (2 ^ down) d (word up down both) (two-pow_pos down) k.0) k.1 in
      rw (same, digit-is up down both d carry h)
        (
          regroup _ _ (weight ds) _ 0 _ ih.0
              ∙ round_value (2 ^ up) (2 ^ down) d carry (value ds) (word up down both),
          (digit_bound (2 ^ up) (2 ^ down) d carry (word up down both) (two-pow_pos down) h, ih.1),
          ap suc ih.2,
        )

  pub highest-normalized :
      (carry d : ℕ) (ds : List ℕ)
      → carry < 2 ^ up
      → IsDigits (d ∷ ds)
      → (last d ds % 2 ^ down) * 2 ^ up ≤ get_or (normalized up carry (d ∷ ds)) (length ds) 0
  unfolding normalized
  highest-normalized carry d [] h k = rw (digit-is up down both d carry h) (omega arith)
  highest-normalized carry d (e ∷ ds) h k =
      highest-normalized (d / 2 ^ (32 - up)) e ds
        (rw same (carry_bound (2 ^ up) (2 ^ down) d (word up down both) (two-pow_pos down) k.0)) k.1

  low_digit :
      (x y : ℕ)
      → x < 4294967296
      → bit_or (x / 2 ^ up) (y * 2 ^ (32 - up) % 4294967296) ≡ (y % 2 ^ up) * 2 ^ down + x / 2 ^ up
  low_digit x y h =
      let swapped : down + up ≡ 32 = omega (arith, both) in
      rw same (
        bit_or_comm (x / 2 ^ up) (y * 2 ^ down % 4294967296)
        ∙ digit-is down up swapped y (x / 2 ^ up)
            (carry_bound (2 ^ down) (2 ^ up) x (word down up swapped) (two-pow_pos up) h))

  low_bound : (x y : ℕ) → x < 4294967296 → (y % 2 ^ up) * 2 ^ down + x / 2 ^ up < 4294967296
  low_bound x y h =
      let swapped : down + up ≡ 32 = omega (arith, both) in
      let w = word down up swapped in
      digit_bound (2 ^ down) (2 ^ up) y (x / 2 ^ up) w (two-pow_pos up)
        (carry_bound (2 ^ down) (2 ^ up) x w (two-pow_pos up) h)

  low_value :
      (x y d t : ℕ)
      → d * 2 ^ up + y % 2 ^ up ≡ t
      → ((y % 2 ^ up) * 2 ^ down + x / 2 ^ up + 4294967296 * d) * 2 ^ up + x % 2 ^ up
        ≡ x + 4294967296 * t
  low_value x y d t e =
      let w = word up down both in
      let u = 2 ^ up in
      omega (
        arith,
        e,
        add-mul ((y % u) * 2 ^ down + x / u) (4294967296 * d) u,
        add-mul ((y % u) * 2 ^ down) (x / u) u,
        mul_assoc (y % u) (2 ^ down) u,
        ap (λ (t : ℕ). y % u * t) (mul_comm (2 ^ down) u ∙ w),
        mul_assoc 4294967296 d u,
        div-add-mod' x u,
      )

  -- The low digits, shifted back.
  pub denormalized-is :
      (n : ℕ) (us : List ℕ)
      → IsDigits us
      → n < length us
      → (value (denormalized (suc n) up us) * 2 ^ up + get_or us 0 0 % 2 ^ up
          ≡ value (take (suc n) us))
        × IsDigits (denormalized (suc n) up us)
  unfolding denormalized
  denormalized-is zero [] h l = absurd (omega arith)
  denormalized-is zero (x ∷ us) h l =
      let e : (x / 2 ^ up + 4294967296 * 0) ≡ x / 2 ^ up = omega arith in
      (rw e (omega (arith, div-add-mod' x (2 ^ up))), (omega (arith, low_bound x 0 h.0), tt))
  denormalized-is (suc n) [] h l = absurd (omega arith)
  denormalized-is (suc n) (x ∷ us) h l =
      let ih = denormalized-is n us h.1 (omega arith) in
      rw (low_digit x (get_or us 0 0) h.0)
        (low_value x (get_or us 0 0) _ _ ih.0, (low_bound x (get_or us 0 0) h.0, ih.1))

pub weight-pow : (ds : List ℕ) → weight ds ≡ 4294967296 ^ length ds
weight-pow [] = omega arith
weight-pow (d ∷ ds) =
    rw (pow-suc 4294967296 (length ds), mul_comm (4294967296 ^ length ds) 4294967296)
      (ap (λ (t : ℕ). 4294967296 * t) (weight-pow ds))

pub value-take :
    (k : ℕ) (us : List ℕ) → IsDigits us → value us < 4294967296 ^ k → value (take k us) ≡ value us
value-take k us h l =
    let s = digits-Splits k us h in
    elim (dec_lt 0 (value (drop k us))) [
      | yes p ↦
          let le : 4294967296 ^ k * 1 ≤ 4294967296 ^ k * value (drop k us) =
            mul-le-mul_left (4294967296 ^ k) (omega arith) in
          absurd (omega (arith, le, s.is))
      | no p ↦
          let z : value (drop k us) ≡ 0 = omega arith in
          sym (
            s.is
            ∙ ap (λ (t : ℕ). 4294967296 ^ k * t + value (take k us)) z
            ∙ omega (arith, mul-zero (4294967296 ^ k)))
    ]

pub all_zero-is : (ds : List ℕ) → all_zero ds ≡ (value ds == 0)
all_zero-is [] = refl
all_zero-is (d ∷ ds) = rw (all_zero-is ds) (zero_digit d (value ds))
  where
    zero_digit : (d v : ℕ) → ((d == 0) && (v == 0)) ≡ (d + 4294967296 * v == 0)
    zero_digit d v = ground arith

-- The highest bit of a number.
above_power : (rounds n : ℕ) → 0 < n → 2 ^ highest_bit_of rounds n ≤ n
unfolding highest_bit_of
above_power zero n h = omega arith
above_power (suc rounds) n h = elim (Bool-cases (ltb n 2)) [
  | inl e ↦ rw e (omega arith)
  | inr e ↦
      let big : 2 ≤ n = ground arith in
      let ih = above_power rounds (n / 2) (omega arith) in
      rw e (omega (arith, ih, pow-suc 2 (highest_bit_of rounds (n / 2))))
]

pub countl_zero-is :
    (d : ℕ)
    → 0 < d
    → d < 4294967296
    → (countl_zero d ≤ 31) × (d < 2 ^ (32 - countl_zero d)) × (2147483648 ≤ d * 2 ^ countl_zero d)
countl_zero-is d h l =
    let up = below_power 32 d l in
    let low = above_power 32 d h in at_bit (highest_bit_of 32 d) up low
  where
    at_bit :
        (b : ℕ)
        → d < 2 ^ suc b
        → 2 ^ b ≤ d
        → (31 - b ≤ 31) × (d < 2 ^ (32 - (31 - b))) × (2147483648 ≤ d * 2 ^ (31 - b))
    at_bit b up low = elim (dec_lt b 32) [
      | yes p ↦
          let e : 32 - (31 - b) ≡ suc b = omega arith in
          let t : b + (31 - b) ≡ 31 = omega arith in
          let le : 2 ^ b * 2 ^ (31 - b) ≤ d * 2 ^ (31 - b) = mul-le-mul_right (2 ^ (31 - b)) low in
          (omega arith, rw e up, omega (arith, le, two-pow_add b (31 - b), ap (λ (x : ℕ). 2 ^ x) t))
      | no p ↦
          let le : 2 ^ 32 ≤ 2 ^ b =
            pow-le-pow_right {n = 2} (omega arith) {i = 32} {j = b} (omega arith) in
          absurd (omega (arith, le, low, l))
    ]
