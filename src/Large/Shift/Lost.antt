-- ===== src/Large/Shift/Lost.antt =====
-- `ShiftRight` of a negative integer whose shifted absolute value has all its digits full.
use native.Mathlib.Nat.{pow-le-pow_right, mul-add-mod_self_left, mod-eq_of_lt}
use primordialsoup.Base.{
  ℕ, suc, ◌+◌, ◌*◌, ◌/◌, ◌%◌, ◌^◌, ◌≤◌, ◌<◌, ◌≡◌, ◌≢◌, ap, ◌∙◌, true, some, List, [], ◌∷◌, length,
  arith, dec_lt, Bool-cases, inl, inr,
}
use primordialsoup.Base.Int.{ℤ, pos}
use primordialsoup.Base.Powers.{two-pow_pos}
use primordialsoup.Large.Digits.{value, weight, IsDigits, IsClamped}
use primordialsoup.Large.Sum.{add_one_in_place, value-increment_digits_wrap}
use primordialsoup.Large.Signed.{LargeInteger, IsVerified, integer, signed}
use primordialsoup.Large.Shift.{shift_right, round_down}
use primordialsoup.Large.Shift.Left.{word-pow_suc}
use primordialsoup.Large.Shift.Right.{shift_right_digits-Divides}
use primordialsoup.Large.Shift.Floor.{floor_div, floor_div-inexact, quotient}
use primordialsoup.Large.Shift.Round.{weight-is, shift_right-some}

clamped_weight :
    (d : ℕ) (ds : List ℕ) → IsClamped (d ∷ ds) → weight (d ∷ ds) ≤ 4294967296 * value (d ∷ ds)
clamped_weight d [] c = omega arith
clamped_weight d (e ∷ ds) c = omega (arith, clamped_weight e ds c)

-- Full digits are as many as they need to be.
full-weight :
    (ds : List ℕ) (k : ℕ)
    → IsClamped ds
    → value ds + 1 ≡ 2 ^ (32 * suc k)
    → weight ds ≤ value ds + 1
full-weight [] k c e = omega arith
full-weight (d ∷ ds) k c e = elim (dec_lt (suc k) (length (d ∷ ds))) [
  | yes p ↦
      let more : 2 ^ (32 * suc (suc k)) ≤ 2 ^ (32 * length (d ∷ ds)) =
        pow-le-pow_right {n = 2} (omega arith) (omega arith) in
      absurd
        (omega (arith, more, word-pow_suc (suc k), weight-is (d ∷ ds), clamped_weight d ds c, e))
  | no p ↦
      let fewer : 2 ^ (32 * length (d ∷ ds)) ≤ 2 ^ (32 * suc k) =
        pow-le-pow_right {n = 2} (omega arith) (omega arith) in
      omega (arith, fewer, weight-is (d ∷ ds), e)
]

add_one_wraps :
    (ds : List ℕ) (k : ℕ)
    → IsDigits ds
    → IsClamped ds
    → value ds + 1 ≡ 2 ^ (32 * suc k)
    → value (add_one_in_place ds) ≡ 0
unfolding add_one_in_place
add_one_wraps [] k h c e = absurd (omega (arith, word-pow_suc k, two-pow_pos (32 * k), e))
add_one_wraps (d ∷ ds) k h c e =
    value-increment_digits_wrap 1 (d ∷ ds) (omega arith) h (full-weight (d ∷ ds) k c e)

negative-ne : (z : ℤ) (n : ℕ) → signed true (n + 1) ≡ z → z ≢ pos 0
negative-ne z n e h = contra n (e ∙ h)
  where
    contra : (m : ℕ) → signed true (m + 1) ≡ pos 0 → ⊥
    contra m k = ground arith

-- Where a bit is shifted out of a negative integer and the shifted absolute value is one less than a
-- power of the base, not 0, `ShiftRight` yields digits that stand for 0, which is not the integer
-- divided and rounded down: that is negative.
pub shift_right_lost :
    (left : LargeInteger) (right k : ℕ)
    → IsVerified left
    → right < 32 * length left.digits
    → left.negative ≡ true
    → value left.digits % 2 ^ right ≢ 0
    → value left.digits / 2 ^ right + 1 ≡ 2 ^ (32 * suc k)
    → (result : LargeInteger) × (shift_right left right ≡ some result)
      × (value result.digits ≡ 0)
      × (floor_div (integer left) (2 ^ right) ≢ pos 0)
shift_right_lost left right k h lt minus rest full =
    let (q, lost, run, divides) =
      shift_right_digits-Divides left.digits right h.in_range h.top lt in
    let is : value left.digits / 2 ^ right ≡ value q =
      ap (λ (t : ℕ). t / 2 ^ right) divides.is
      ∙ quotient (2 ^ right) (value q) divides.remainder divides.small in
    let rem : value left.digits % 2 ^ right ≡ divides.remainder =
      ap (λ (t : ℕ). t % 2 ^ right) divides.is
      ∙ mul-add-mod_self_left (2 ^ right) (value q) divides.remainder
      ∙ mod-eq_of_lt divides.small in
    elim (Bool-cases lost) [
      | inl yes_lost ↦ (
        round_down left.negative (q, lost),
        shift_right-some left right (q, lost) run,
        rw (minus, yes_lost) (add_one_wraps q k divides.range divides.top (rw is at full)),
        negative-ne _ (value q) (
            rw (minus, divides.is)
              (floor_div-inexact (2 ^ right) (value q) divides.remainder divides.small
                (divides.inexact yes_lost))),
      )
      | inr no_lost ↦ absurd (rest (rem ∙ divides.exact no_lost))
    ]
