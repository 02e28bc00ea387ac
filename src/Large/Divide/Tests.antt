-- ===== src/Large/Divide/Tests.antt =====
-- `Divide` at concrete integers.
use primordialsoup.Base.{◌≡◌, refl, true, false, [], ◌∷◌, arith}
use primordialsoup.Large.Signed.{
  LargeInteger, IsVerified, clamp, add, abs_greater, abs_compare, subtract_absolutes_with_sign,
}
use primordialsoup.Large.Digits.{trim}
use primordialsoup.Large.Sum.{subtract_digits, subtract_rest}
use primordialsoup.Large.Shift.Round.{HasRoom}
use primordialsoup.Large.Shift.Left.{word-pow_suc}
use primordialsoup.Math.{highest_bit_of}
use primordialsoup.Large.Divide.{
  divide, normalized, estimate, subtract_product, add_back, divide_round, divide_rounds,
  denormalized, divide_long, result, truncated, floored, quotient, remainder,
}
use primordialsoup.Large.Divide.Estimate.{estimate-Ends}
use primordialsoup.Large.Divide.Cases.{Divides, DividesDown, RoundsDown}
use primordialsoup.Large.Divide.Whole.{divide-Divides, divide-DividesDown}

abbrev long_dividend : LargeInteger
long_dividend = record {
  negative = true;
  digits = 123456789 ∷ 987654321 ∷ 4294967295 ∷ 2147483648 ∷ 7 ∷ [];
}

abbrev long_divisor : LargeInteger
long_divisor = record { negative = false; digits = 4294967295 ∷ 0 ∷ 2147483648 ∷ [] }

dividend-IsVerified : IsVerified long_dividend
dividend-IsVerified = record {
  in_range = (omega arith, (omega arith, (omega arith, (omega arith, (omega arith, tt)))));
  top = omega arith;
  sign = tt;
}

divisor-IsVerified : IsVerified long_divisor
divisor-IsVerified = record {
  in_range = (omega arith, (omega arith, (omega arith, tt)));
  top = omega arith;
  sign = tt;
}

divide-Divides_example : Divides long_dividend long_divisor
divide-Divides_example =
    divide-Divides long_dividend long_divisor dividend-IsVerified divisor-IsVerified (omega arith)

quotient-HasRoom : HasRoom 64424509441
quotient-HasRoom k h = omega (arith, h, word-pow_suc k)

dividend-RoundsDown : RoundsDown long_dividend long_divisor
dividend-RoundsDown le s nz = (λ one. absurd (omega (arith, one)), quotient-HasRoom)

divide-DividesDown_example : DividesDown long_dividend long_divisor
divide-DividesDown_example =
    divide-DividesDown long_dividend long_divisor dividend-IsVerified divisor-IsVerified
      (omega arith) dividend-RoundsDown

long_quotient_run :
    divide truncated quotient long_dividend long_divisor
    ≡ result (record { negative = true; digits = 1 ∷ 15 ∷ [] })
unfolding divide divide_long normalized estimate subtract_product add_back divide_round
    divide_rounds clamp trim highest_bit_of
long_quotient_run = refl

long_remainder_run :
    divide floored remainder long_dividend long_divisor
    ≡ result (record { negative = false; digits = 4171510505 ∷ 3307312961 ∷ 15 ∷ [] })
unfolding divide divide_long normalized estimate subtract_product add_back divide_round
    divide_rounds denormalized clamp trim highest_bit_of add abs_greater abs_compare
    subtract_absolutes_with_sign subtract_digits subtract_rest
long_remainder_run = refl

estimate-Ends_example :
    estimate 7 2147483648 4294967295 5 4294967299 17
    ≡ estimate 3 2147483648 4294967295 5 4294967299 17
estimate-Ends_example =
    estimate-Ends 5 2147483648 4294967295 5 4294967299 17 (omega arith) (omega arith)
