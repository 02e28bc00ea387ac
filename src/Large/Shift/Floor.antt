-- ===== src/Large/Shift/Floor.antt =====
-- Division by a power of two that rounds down, as `>>` does in two's complement.
use native.Mathlib.Nat.{mul-add-div, div-eq_of_lt, mul-suc}
use primordialsoup.Base.{
  ℕ, zero, suc, ◌+◌, ◌-◌, ◌*◌, ◌/◌, ◌<◌, ◌≡◌, sym, ap, ◌∙◌, true, false, arith,
}
use primordialsoup.Base.Int.{ℤ, pos, negsuc}
use primordialsoup.Large.Signed.{signed}

-- -(a + 1) divided by m and rounded down is -(a / m + 1).
unfoldable pub floor_div : ℤ → ℕ → ℤ
floor_div (pos a) m = pos (a / m)
floor_div (negsuc a) m = negsuc (a / m)

pub quotient : (m q r : ℕ) → r < m → (m * q + r) / m ≡ q
quotient m q r h =
    mul-add-div (omega arith) q r
    ∙ ap (λ (t : ℕ). q + t) (div-eq_of_lt h)
    ∙ (let e : q + 0 ≡ q = omega arith in e)

pub floor_div-pos : (m q r : ℕ) → r < m → signed false q ≡ floor_div (signed false (m * q + r)) m
unfolding floor_div
floor_div-pos m q r h = ap pos (sym (quotient m q r h))

pub negsuc-is : (n : ℕ) → signed true (suc n) ≡ negsuc n
negsuc-is n = ground arith

pub floor_div-exact :
    (m q : ℕ) → 0 < m → 0 < q → signed true q ≡ floor_div (signed true (m * q + 0)) m
unfolding floor_div
floor_div-exact m zero hm h = absurd (omega arith)
floor_div-exact m (suc q) hm h =
    let e : m * suc q + 0 ≡ suc (m * q + (m - 1)) = omega (arith, mul-suc m q) in
    rw (e, negsuc-is q, negsuc-is (m * q + (m - 1)))
      (ap negsuc (sym (quotient m q (m - 1) (omega arith))))

-- Where there is a remainder, the absolute value is rounded up.
pub floor_div-inexact :
    (m q r : ℕ) → r < m → 0 < r → signed true (q + 1) ≡ floor_div (signed true (m * q + r)) m
unfolding floor_div
floor_div-inexact m q zero h k = absurd (omega arith)
floor_div-inexact m q (suc r) h k =
    let e : m * q + suc r ≡ suc (m * q + r) = omega arith in
    let f : q + 1 ≡ suc q = omega arith in
    rw (e, f, negsuc-is q, negsuc-is (m * q + r)) (ap negsuc (sym (quotient m q r (omega arith))))
