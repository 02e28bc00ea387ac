-- ===== src/Primitives/Quotients.antt =====
-- `Number_divide`, `Number_div`, `Number_mod`, `Number_quo` and `Number_rem`.
pub mod Paths
pub mod Laws
mod Tests
use primordialsoup.Base.{Bool, true, false, not, ◌&&◌, ◌||◌, Option, none, some, if◌then◌else◌}
use primordialsoup.Base.Int.{eq_ℤ, ℤ, pos, negsuc}
use primordialsoup.Large.Signed.{LargeInteger}
use primordialsoup.Large.Number.{Number, new_integer, reduce}
use primordialsoup.Large.Divide.{
  Division, result, inexact, unreachable, Rounding, truncated, floored, exact, Wanted, quotient,
  remainder, is_nil, divide,
}
use primordialsoup.Math.{
  OverflowChecks, quotient_overflows, is_zero, trunc_div, trunc_mod, floor_div_word, floor_mod_word,
}
use primordialsoup.Primitives.{
  Floats, Outcome, next, failure, done, ◌orelse◌, both, integer_arms, Object, number, float,
  number_of, is_float, finish, float_value, or_failure, float_arm, return_mint, return_lint,
}

-- What a division that does not fail comes to: `UNREACHABLE` in `Divide` ends the process, and else
-- there is a result.
pub data Ending (A : Type 0) : Type 0 where
  aborts : Ending A
  returns : A → Ending A

abbrev pub returning : {A : Type 0} → Outcome A → Outcome (Ending A)
returning next = next
returning failure = failure
returning (done a) = done (returns a)

module _ (fs : Floats) (checks : OverflowChecks) where
  open fs use {Double, of_int64, equals, over, floor}

  -- A quotient that is `nullptr` is inexact.
  abbrev pub return_division : Division → Outcome (Ending (Object Double))
  return_division (result l) = returning (return_lint fs checks l)
  return_division inexact = failure
  return_division unreachable = done aborts

  -- The arms that the five have on integers: `op` is on words, by a divisor that is not 0.
  module _ (op : ℤ → ℤ → Outcome (Object Double)) (rounding : Rounding) (wanted : Wanted) where
    abbrev pub smi_division : ℤ → ℤ → Outcome (Ending (Object Double))
    smi_division left right = if is_zero right then failure else returning (op left right)

    abbrev pub mint_division : ℤ → ℤ → Outcome (Ending (Object Double))
    mint_division left right =
        if is_zero right
        then failure
        else if quotient_overflows left right
        then next
        else returning (op left right)

    abbrev pub lint_division : LargeInteger → LargeInteger → Outcome (Ending (Object Double))
    lint_division left right =
        if is_nil right.digits then failure else return_division (divide rounding wanted left right)

    abbrev pub division_arms : Object Double → Object Double → Outcome (Ending (Object Double))
    division_arms left right =
        both (number_of left) (number_of right)
          (integer_arms smi_division mint_division lint_division)

  abbrev pub divide_words : ℤ → ℤ → Outcome (Object Double)
  divide_words left right =
      if not (is_zero (trunc_mod left right))
      then failure
      else return_mint fs checks (trunc_div left right)

  abbrev pub by_word : (ℤ → ℤ → ℤ) → ℤ → ℤ → Outcome (Object Double)
  by_word op left right = return_mint fs checks (op left right)

  unfoldable pub number_divide : Object Double → Object Double → Option (Ending (Object Double))
  number_divide left right = finish (
      division_arms divide_words exact quotient left right
      orelse returning (float_arm fs checks (λ x y. float (over x y)) left right))

  -- A float is not divided by 0.
  abbrev pub floor_arm : Object Double → Object Double → Outcome (Object Double)
  floor_arm left right =
      if is_float left || is_float right
      then or_failure fs checks (float_value fs checks left) (λ x.
        or_failure fs checks (float_value fs checks right)
          (λ y. if equals y (of_int64 (pos 0)) then failure else done (float (floor (over x y)))))
      else next

  unfoldable pub number_div : Object Double → Object Double → Option (Ending (Object Double))
  number_div left right = finish (
      division_arms (by_word floor_div_word) floored quotient left right
      orelse returning (floor_arm left right))

  unfoldable pub number_mod : Object Double → Object Double → Option (Ending (Object Double))
  number_mod left right =
      finish (division_arms (by_word floor_mod_word) floored remainder left right)

  unfoldable pub number_quo : Object Double → Object Double → Option (Ending (Object Double))
  number_quo left right = finish (division_arms (by_word trunc_div) truncated quotient left right)

  unfoldable pub number_rem : Object Double → Object Double → Option (Ending (Object Double))
  number_rem left right = finish (division_arms (by_word trunc_mod) truncated remainder left right)
