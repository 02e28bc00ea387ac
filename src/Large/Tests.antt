-- ===== src/Large/Tests.antt =====
-- The theorems on large integers at concrete ones.
use primordialsoup.Base.{◌≡◌, ◌≢◌, refl, true, false, [], ◌∷◌, arith, bit_or, bit_xor}
use primordialsoup.Base.Int.{pos, ◌+ℤ◌, ◌-ℤ◌, ◌*ℤ◌}
use primordialsoup.Large.Signed.{LargeInteger, integer, IsVerified, add, subtract, multiply}
use primordialsoup.Large.Signed.Ring.{
  StandsFor, add-StandsFor, subtract-StandsFor, multiply-StandsFor,
}
use primordialsoup.Large.Bitwise.{large_and, large_or, large_xor}
use primordialsoup.Large.Digits.{value}
use primordialsoup.Base.{ℕ, ◌*◌, ◌+◌, ◌<◌, ◌/◌, ◌^◌, some}
use primordialsoup.Base.Powers.{two-pow_pos}
use primordialsoup.Large.Shift.{shift_left, shift_right}
use primordialsoup.Large.Shift.Left.{word-pow_suc, shift_left-StandsFor}
use primordialsoup.Large.Shift.Floor.{floor_div}
use primordialsoup.Large.Shift.Round.{HasRoom, shift_right-StandsFor}
use primordialsoup.Large.Shift.Lost.{shift_right_lost}
use primordialsoup.Large.Bitwise.Twos.{and_ℤ, or_ℤ, xor_ℤ}
use primordialsoup.Large.Bitwise.Laws.{
  and-StandsFor, or-StandsFor, xor-StandsFor, and_lost, xor_lost,
}

-- 2 to the power of 32, plus 5.
abbrev big : LargeInteger
big = record { negative = false; digits = 5 ∷ 1 ∷ [] }

-- -7.
abbrev minus_seven : LargeInteger
minus_seven = record { negative = true; digits = 7 ∷ [] }

-- -(2 to the power of 32).
abbrev minus_base : LargeInteger
minus_base = record { negative = true; digits = 0 ∷ 1 ∷ [] }

-- -(2 to the power of 64 - 2 to the power of 32 + 1).
abbrev minus_wide : LargeInteger
minus_wide = record { negative = true; digits = 1 ∷ 4294967295 ∷ [] }

-- 2 to the power of 32, less 1.
abbrev ones : LargeInteger
ones = record { negative = false; digits = 4294967295 ∷ [] }

big-IsVerified : IsVerified big
big-IsVerified = record {
  in_range = (omega arith, (omega arith, tt));
  top = omega arith;
  sign = tt;
}

minus_seven-IsVerified : IsVerified minus_seven
minus_seven-IsVerified = record { in_range = (omega arith, tt); top = omega arith; sign = tt }

minus_base-IsVerified : IsVerified minus_base
minus_base-IsVerified = record {
  in_range = (omega arith, (omega arith, tt));
  top = omega arith;
  sign = tt;
}

minus_wide-IsVerified : IsVerified minus_wide
minus_wide-IsVerified = record {
  in_range = (omega arith, (omega arith, tt));
  top = omega arith;
  sign = tt;
}

ones-IsVerified : IsVerified ones
ones-IsVerified = record { in_range = (omega arith, tt); top = omega arith; sign = tt }

six_or : bit_or 6 4294967295 ≡ 4294967295
six_or = refl

six_xor : bit_xor 6 4294967301 ≡ 4294967299
six_xor = refl

wide_or : bit_or 18446744069414584320 4294967295 ≡ 18446744073709551615
wide_or = refl

wide_xor : bit_xor 4294967295 18446744069414584320 ≡ 18446744073709551615
wide_xor = refl

add-StandsFor_example : StandsFor (integer big +ℤ integer minus_seven) (add big minus_seven)
add-StandsFor_example = add-StandsFor big minus_seven big-IsVerified minus_seven-IsVerified

subtract-StandsFor_example :
    StandsFor (integer minus_seven -ℤ integer big) (subtract minus_seven big)
subtract-StandsFor_example =
    subtract-StandsFor minus_seven big minus_seven-IsVerified big-IsVerified

multiply-StandsFor_example :
    StandsFor (integer big *ℤ integer minus_seven) (multiply big minus_seven)
multiply-StandsFor_example =
    multiply-StandsFor big minus_seven big-IsVerified minus_seven-IsVerified

and-StandsFor_example :
    StandsFor (and_ℤ (integer minus_seven) (integer minus_base)) (large_and minus_seven minus_base)
and-StandsFor_example =
    and-StandsFor minus_seven minus_base minus_seven-IsVerified minus_base-IsVerified
      (omega (arith, six_or))

or-StandsFor_example :
    StandsFor (or_ℤ (integer big) (integer minus_seven)) (large_or big minus_seven)
or-StandsFor_example = or-StandsFor big minus_seven big-IsVerified minus_seven-IsVerified

xor-StandsFor_example :
    StandsFor (xor_ℤ (integer big) (integer minus_seven)) (large_xor big minus_seven)
xor-StandsFor_example =
    xor-StandsFor big minus_seven big-IsVerified minus_seven-IsVerified (omega (arith, six_xor))

and_lost_example :
    StandsFor (pos 0) (large_and minus_wide minus_base)
    × (and_ℤ (integer minus_wide) (integer minus_base) ≢ pos 0)
and_lost_example =
    and_lost minus_wide minus_base minus_wide-IsVerified minus_base-IsVerified
      (omega (arith, wide_or))

xor_lost_example :
    StandsFor (pos 0) (large_xor ones minus_wide)
    × (xor_ℤ (integer ones) (integer minus_wide) ≢ pos 0)
xor_lost_example =
    xor_lost ones minus_wide ones-IsVerified minus_wide-IsVerified (omega (arith, wide_xor))

shift_left-StandsFor_example :
    StandsFor (integer minus_seven *ℤ pos (2 ^ 37)) (shift_left minus_seven 37)
shift_left-StandsFor_example = shift_left-StandsFor minus_seven 37 minus_seven-IsVerified

no_power : (n : ℕ) → n + 1 < 4294967296 → HasRoom n
no_power n h k e = omega (arith, word-pow_suc k, two-pow_pos (32 * k))

shift_right-StandsFor_example :
    (result : LargeInteger) × (shift_right minus_wide 33 ≡ some result)
    × StandsFor (floor_div (integer minus_wide) (2 ^ 33)) result
shift_right-StandsFor_example =
    shift_right-StandsFor minus_wide 33 minus_wide-IsVerified (omega arith)
      (λ e. no_power (value minus_wide.digits / 2 ^ 33) (omega arith))

shift_right_lost_example :
    (result : LargeInteger) × (shift_right minus_wide 32 ≡ some result)
    × (value result.digits ≡ 0)
    × (floor_div (integer minus_wide) (2 ^ 32) ≢ pos 0)
shift_right_lost_example =
    shift_right_lost minus_wide 32 0 minus_wide-IsVerified (omega arith) refl
      (λ e. omega (arith, e)) refl
