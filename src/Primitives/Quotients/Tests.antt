-- ===== src/Primitives/Quotients/Tests.antt =====
-- The divisions at concrete operands.
use primordialsoup.Base.{◌≡◌, ◌≢◌, refl, none, arith}
use primordialsoup.Base.Int.{pos, negsuc}
use primordialsoup.Large.Number.{
  Number, small, number_value, expand, expand_value, to_uint64, digits_of, IsNumber, is_smi,
}
use primordialsoup.Large.Shift.Round.{HasRoom}
use primordialsoup.Large.Shift.Left.{word-pow_suc}
use primordialsoup.Large.Divide.Cases.{RoundsDown}
use primordialsoup.Math.Overflow.{fallback}
use primordialsoup.Primitives.{number}
use primordialsoup.Primitives.Bits.{IfLarge}
use primordialsoup.Primitives.Tests.{exact, wide, wide-IsNumber}
use primordialsoup.Primitives.Quotients.{
  number_divide, number_div, number_mod, number_quo, number_rem,
}
use primordialsoup.Primitives.Quotients.Laws.{
  Truncates, YieldsBoth, truncated_quotients-are, floored_quotients-are, divisions_by_zero,
}

abbrev minus_seven : Number
minus_seven = small (negsuc 6)

abbrev nought : Number
nought = small (pos 0)

minus_seven-IsNumber : IsNumber minus_seven
unfolding IsNumber is_smi
minus_seven-IsNumber = refl

nought-IsNumber : IsNumber nought
unfolding IsNumber is_smi
nought-IsNumber = refl

minus_seven_nonzero : number_value minus_seven ≢ pos 0
minus_seven_nonzero e = cc

truncated_quotients-are_example :
    Truncates exact fallback wide minus_seven wide-IsNumber minus_seven-IsNumber minus_seven_nonzero
truncated_quotients-are_example =
    truncated_quotients-are exact fallback wide minus_seven wide-IsNumber minus_seven-IsNumber
      minus_seven_nonzero

quotient-HasRoom : HasRoom 2635249153387078802
quotient-HasRoom k h = omega (arith, h, word-pow_suc k)

wide-RoundsDown : IfLarge RoundsDown wide minus_seven
unfolding expand digits_of expand_value to_uint64
wide-RoundsDown le s nz = (λ one. omega arith, quotient-HasRoom)

floored_quotients-are_example :
    YieldsBoth
      (number_value minus_seven)
      (number_value wide)
      (number_value minus_seven)
      (number_div exact fallback (number wide) (number minus_seven))
      (number_mod exact fallback (number wide) (number minus_seven))
floored_quotients-are_example =
    floored_quotients-are exact fallback wide minus_seven wide-IsNumber minus_seven-IsNumber
      minus_seven_nonzero wide-RoundsDown

divisions_by_zero_example :
    (number_divide exact fallback (number wide) (number nought) ≡ none)
    × (number_div exact fallback (number wide) (number nought) ≡ none)
    × (number_mod exact fallback (number wide) (number nought) ≡ none)
    × (number_quo exact fallback (number wide) (number nought) ≡ none)
    × (number_rem exact fallback (number wide) (number nought) ≡ none)
divisions_by_zero_example = divisions_by_zero exact fallback wide nought nought-IsNumber refl
