-- ===== src/Math/Tests.antt =====
-- The divisions at a concrete dividend and divisor.
use primordialsoup.Base.{true, ◌≡◌, ◌≢◌, refl, ap, arith}
use primordialsoup.Base.Int.{eq_ℤ, ℤ, pos, negsuc, pos_part, ◌-ℤ◌}
use primordialsoup.Large.Divide.Spec.{IsDivision}
use primordialsoup.Math.{trunc_div, trunc_mod, floor_div_word, floor_mod_word}
use primordialsoup.Math.Words.{word_divisions-are}
use primordialsoup.Large.Number.{is_int64}

abbrev minus_seven : ℤ
minus_seven = negsuc 6

abbrev two : ℤ
two = pos 2

two-ne : two ≢ pos 0
two-ne h = absurd (omega (arith, ap pos_part h))

floored : floor_div_word minus_seven two ≡ negsuc 3
unfolding floor_div_word trunc_mod trunc_div ◌-ℤ◌
floored = refl

word_divisions-are_example :
    (IsDivision minus_seven minus_seven two (trunc_div minus_seven two) (trunc_mod minus_seven two)
      × (is_int64 (trunc_div minus_seven two) ≡ true)
      × (is_int64 (trunc_mod minus_seven two) ≡ true))
    × (IsDivision two minus_seven two
          (floor_div_word minus_seven two)
          (floor_mod_word minus_seven two)
        × (is_int64 (floor_div_word minus_seven two) ≡ true)
        × (is_int64 (floor_mod_word minus_seven two) ≡ true))
unfolding is_int64 eq_ℤ
word_divisions-are_example = word_divisions-are minus_seven two refl refl two-ne refl
