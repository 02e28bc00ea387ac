-- ===== src/Large/Divide/Row.antt =====
-- The division by one digit.
use native.Mathlib.Nat.{div-add-mod, div-add-mod', mod-lt, mul-add, mul_left_comm, mul-le-mul_left}
use primordialsoup.Base.{
  ℕ, ◌+◌, ◌*◌, ◌/◌, ◌%◌, ◌≤◌, ◌<◌, ◌≡◌, ap, ◌∙◌, List, [], ◌∷◌, u64, sub64, arith, dec_lt,
}
use primordialsoup.Large.Digits.{digit_base, value, IsDigits}
use primordialsoup.Large.Divide.{divide_row}

-- The quotient and the remainder of an absolute value.
pub record Parts (d v : ℕ) (p : List ℕ × ℕ) : Type 0 where
  pub in_range : IsDigits p.0
  pub is : v ≡ d * value p.0 + p.1
  pub less : p.1 < d

difference : (n p s : ℕ) → p + s ≡ n → n < 18446744073709551616 → sub64 n (u64 p) ≡ s
difference n p s e h = omega arith

module _ (d : ℕ) (some_d : 0 < d) (small_d : d < 4294967296) where
  quotient-digit : (n : ℕ) → n < d * 4294967296 → n / d < 4294967296
  quotient-digit n h = elim (dec_lt (n / d) 4294967296) [
    | yes p ↦ p
    | no p ↦
        let le : d * 4294967296 ≤ d * (n / d) = mul-le-mul_left d (omega arith) in
        absurd (omega (arith, le, div-add-mod n d))
  ]

  step :
      (x r w q : ℕ)
      → x < 4294967296
      → r < d
      → w ≡ d * q + r
      → let n = u64 (u64 (r * digit_base) + x) in
        let k = (n / d) % digit_base in
        (k < 4294967296)
        × (x + 4294967296 * w ≡ d * (k + 4294967296 * q) + sub64 n (u64 (k * d)))
        × (sub64 n (u64 (k * d)) < d)
  step x r w q hx hr e =
      let n = r * 4294967296 + x in
      let whole : u64 (u64 (r * digit_base) + x) ≡ n = omega arith in
      let below : n / d < 4294967296 = quotient-digit n (omega arith) in
      let digit : (n / d) % digit_base ≡ n / d = omega (arith, below) in
      let division = div-add-mod n d in
      let less = mod-lt n some_d in
      let rest : sub64 n (u64 (n / d * d)) ≡ n % d =
        difference n (n / d * d) (n % d) (div-add-mod' n d) (omega arith) in
      let spread : d * (n / d + 4294967296 * q) ≡ d * (n / d) + 4294967296 * (d * q) =
        mul-add d (n / d) (4294967296 * q)
        ∙ ap (λ (t : ℕ). d * (n / d) + t) (mul_left_comm d 4294967296 q) in
      rw (whole, digit, rest) (below, omega (arith, spread, division, e), less)

  pub divide_row-Parts : (xs : List ℕ) → IsDigits xs → Parts d (value xs) (divide_row d xs)
  unfolding divide_row
  divide_row-Parts [] h = record { in_range = tt; is = omega arith; less = some_d }
  divide_row-Parts (x ∷ xs) h =
      let ih = divide_row-Parts xs h.1 in
      let (qs, r) = divide_row d xs in
      let (range, is, less) = step x r (value xs) (value qs) h.0 ih.less ih.is in
      record { in_range = (range, ih.in_range); is = is; less = less }
