-- ===== src/Primitives.antt =====
-- `vm/primitives.cc`: the arithmetic on numbers. A primitive is the function of its operands; `none`
-- is `kFailure`, which leaves the stack alone, and `some` is what replaces the operands. Each has an
-- arm for small, one for 64-bit and one for large integers, tried in this order; an arm that cannot
-- represent its result falls through.
pub mod Arms
pub mod Ring
pub mod Order
pub mod Words
pub mod Bits
pub mod Shifts
pub mod Quotients
pub mod Floating
mod Tests
use primordialsoup.Base.{
  ℕ, zero, suc, ◌+◌, ◌-◌, ◌*◌, ◌/◌, ◌%◌, ◌^◌, ◌≤◌, ◌<◌, ◌≡◌, Bool, true, false, ◌&&◌, ◌||◌, not,
  Option, none, some, ltb, ◌==◌, if◌then◌else◌, bit_and, bit_or, bit_xor,
}
use primordialsoup.Base.Int.{ℤ, pos, negsuc, ltb_ℤ, eq_ℤ, ◌+ℤ◌, ◌-ℤ◌, ◌*ℤ◌}
use primordialsoup.Large.Signed.{LargeInteger, compare, add, subtract, multiply, is_negative}
use primordialsoup.Large.Bitwise.{large_and, large_or, large_xor}
use primordialsoup.Large.Number.{
  Number, small, medium, large, expand, reduce, new_integer, to_uint64, to_int64,
}
use primordialsoup.Math.{OverflowChecks, is_zero}

-- `double` and what the primitives use of it: the conversions, the operators of C++, and `floor`. The
-- conversion of a large integer is `LargeInteger::AsDouble`.
pub record Floats : Type 1 where
  pub Double : Type 0
  pub of_int64 : ℤ → Double
  pub of_large : LargeInteger → Double
  pub plus : Double → Double → Double
  pub minus : Double → Double → Double
  pub times : Double → Double → Double
  pub over : Double → Double → Double
  pub floor : Double → Double
  pub equals : Double → Double → Bool
  pub less_than : Double → Double → Bool
  pub at_most : Double → Double → Bool

-- What an arm of a primitive does.
pub data Outcome (A : Type 0) : Type 0 where
  next failure : Outcome A
  done : A → Outcome A

-- `kFailure` at the end of a primitive.
abbrev pub finish : {A : Type 0} → Outcome A → Option A
finish next = none
finish failure = none
finish (done a) = some a

infixr 20 ◌orelse◌
abbrev pub ◌orelse◌ : {A : Type 0} → Outcome A → Outcome A → Outcome A
next orelse o = o
failure orelse o = failure
done a orelse o = done a

-- The fields of a word with the tag 0: the tagged word of a value, and the value of a tagged word.
abbrev pub tag : ℤ → ℤ
tag a = a +ℤ a

unfoldable pub untag : ℤ → ℤ
untag (pos n) = pos (n / 2)
untag (negsuc n) = negsuc (n / 2)

-- The sign of a comparison.
abbrev pub is_positive : ℤ → Bool
is_positive (pos zero) = false
is_positive (pos (suc n)) = true
is_positive (negsuc n) = false

-- `IS_SMI_OP` and `SMI_VALUE`, `IS_MINT_OP` and `MINT_VALUE`.
abbrev pub small_value : Number → Option ℤ
small_value (small a) = some a
small_value (medium a) = none
small_value (large l) = none

abbrev pub mint_value : Number → Option ℤ
mint_value (small a) = some a
mint_value (medium a) = some a
mint_value (large l) = none

abbrev pub both : {A B : Type 0} → Option A → Option A → (A → A → Outcome B) → Outcome B
both none b f = next
both (some a) none f = next
both (some a) (some b) f = f a b

-- The three arms on integers; the last takes all that reach it.
module _ {A : Type 0} (smi mint : ℤ → ℤ → Outcome A)
    (lint : LargeInteger → LargeInteger → Outcome A) where
  unfoldable pub integer_arms : Number → Number → Outcome A
  integer_arms left right =
      both (small_value left) (small_value right) smi
      orelse both (mint_value left) (mint_value right) mint
      orelse lint (expand left) (expand right)

-- What the operand stack holds: a number, a float, `true` or `false`, or anything else.
pub data Object (D : Type 0) : Type 0 where
  number : Number → Object D
  float : D → Object D
  boolean : Bool → Object D
  other : ℕ → Object D

module _ {D : Type 0} where
  abbrev pub number_of : Object D → Option Number
  number_of (number n) = some n
  number_of (float x) = none
  number_of (boolean b) = none
  number_of (other w) = none

  abbrev pub is_float : Object D → Bool
  is_float (number n) = false
  is_float (float x) = true
  is_float (boolean b) = false
  is_float (other w) = false

module _ (fs : Floats) (checks : OverflowChecks) where
  open fs use {Double, of_int64, of_large, plus, minus, times, equals, less_than, at_most}
  open checks use {add as add_checked, subtract as subtract_checked, multiply as multiply_checked}

  -- `FLOAT_VALUE`.
  abbrev pub float_value : Object Double → Option Double
  float_value (number (small a)) = some (of_int64 a)
  float_value (number (medium a)) = some (of_int64 a)
  float_value (number (large l)) = some (of_large l)
  float_value (float x) = some x
  float_value (boolean b) = none
  float_value (other w) = none

  abbrev pub or_failure :
      Option Double → (Double → Outcome (Object Double)) → Outcome (Object Double)
  or_failure none f = failure
  or_failure (some x) f = f x

  -- The arm that all have for floats.
  abbrev pub float_arm :
      (Double → Double → Object Double) → Object Double → Object Double → Outcome (Object Double)
  float_arm op left right =
      if is_float left || is_float right
      then or_failure (float_value left) (λ x. or_failure (float_value right) (λ y. done (op x y)))
      else next

  -- `RETURN_MINT` and `RETURN_LINT`.
  abbrev pub return_mint : ℤ → Outcome (Object Double)
  return_mint r = done (number (new_integer r))

  abbrev pub return_lint : LargeInteger → Outcome (Object Double)
  return_lint l = done (number (reduce l))

  abbrev pub checked : Option ℤ → (ℤ → Outcome (Object Double)) → Outcome (Object Double)
  checked none f = next
  checked (some r) f = f r

  -- `RETURN(static_cast<SmallInteger>(raw_result))` on a tagged word.
  abbrev pub return_tagged : ℤ → Outcome (Object Double)
  return_tagged r = done (number (small (untag r)))

  unfoldable pub number_add : Object Double → Object Double → Option (Object Double)
  number_add left right = finish (
      both (number_of left) (number_of right) (
        integer_arms (λ a b. checked (add_checked (tag a) (tag b)) return_tagged)
          (λ a b. checked (add_checked a b) return_mint) (λ l r. return_lint (add l r)))
      orelse float_arm (λ x y. float (plus x y)) left right)

  unfoldable pub number_subtract : Object Double → Object Double → Option (Object Double)
  number_subtract left right = finish (
      both (number_of left) (number_of right) (
        integer_arms (λ a b. checked (subtract_checked (tag a) (tag b)) return_tagged)
          (λ a b. checked (subtract_checked a b) return_mint) (λ l r. return_lint (subtract l r)))
      orelse float_arm (λ x y. float (minus x y)) left right)

  -- The right word is untagged.
  unfoldable pub number_multiply : Object Double → Object Double → Option (Object Double)
  number_multiply left right = finish (
      both (number_of left) (number_of right) (
        integer_arms (λ a b. checked (multiply_checked (tag a) b) return_tagged)
          (λ a b. checked (multiply_checked a b) return_mint) (λ l r. return_lint (multiply l r)))
      orelse float_arm (λ x y. float (times x y)) left right)

  abbrev pub return_bool : Bool → Outcome (Object Double)
  return_bool b = done (boolean b)

  -- The comparisons: a test on words, one on the sign of `Compare`, and one on floats.
  abbrev pub comparison :
      (ℤ → ℤ → Bool) → (ℤ → Bool) → Object Double → Object Double → Outcome (Object Double)
  comparison test sign left right = both (number_of left) (number_of right) (
      integer_arms (λ a b. return_bool (test (tag a) (tag b))) (λ a b. return_bool (test a b))
        (λ l r. return_bool (sign (compare l r))))

  unfoldable pub number_less : Object Double → Object Double → Option (Object Double)
  number_less left right = finish (
      comparison ltb_ℤ is_positive left right
      orelse float_arm (λ x y. boolean (less_than x y)) left right)

  unfoldable pub number_greater : Object Double → Object Double → Option (Object Double)
  number_greater left right = finish (
      comparison (λ a b. ltb_ℤ b a) is_negative left right
      orelse float_arm (λ x y. boolean (less_than y x)) left right)

  unfoldable pub number_less_or_equal : Object Double → Object Double → Option (Object Double)
  number_less_or_equal left right = finish (
      comparison (λ a b. not (ltb_ℤ b a)) (λ c. not (is_negative c)) left right
      orelse float_arm (λ x y. boolean (at_most x y)) left right)

  unfoldable pub number_greater_or_equal : Object Double → Object Double → Option (Object Double)
  number_greater_or_equal left right = finish (
      comparison (λ a b. not (ltb_ℤ a b)) (λ c. not (is_positive c)) left right
      orelse float_arm (λ x y. boolean (at_most y x)) left right)

  abbrev pub or_false : Option Double → (Double → Outcome (Object Double)) → Outcome (Object Double)
  or_false none f = return_bool false
  or_false (some x) f = f x

  -- `Number_equal` fails only on a left operand that is no number, beside a float; it is false where
  -- the right one is none, or where neither is a float.
  unfoldable pub number_equal : Object Double → Object Double → Option (Object Double)
  number_equal left right = finish (
      comparison eq_ℤ is_zero left right
      orelse (if is_float left || is_float right
          then or_failure (float_value left)
              (λ x. or_false (float_value right) (λ y. return_bool (equals x y)))
          else next)
      orelse return_bool false)

  -- The bit operations: on tagged words, on the patterns of `int64_t`, and on large integers.
  abbrev pub bit_operation :
      (ℕ → ℕ → ℕ)
      → (LargeInteger → LargeInteger → LargeInteger)
      → Object Double
      → Object Double
      → Option (Object Double)
  bit_operation op large_op left right = finish (
      both (number_of left) (number_of right) (
        integer_arms (λ a b. return_tagged (to_int64 (op (to_uint64 (tag a)) (to_uint64 (tag b)))))
          (λ a b. return_mint (to_int64 (op (to_uint64 a) (to_uint64 b))))
          (λ l r. return_lint (large_op l r))))

  unfoldable pub integer_bit_and : Object Double → Object Double → Option (Object Double)
  integer_bit_and left right = bit_operation bit_and large_and left right

  unfoldable pub integer_bit_or : Object Double → Object Double → Option (Object Double)
  integer_bit_or left right = bit_operation bit_or large_or left right

  -- The tag that `Integer_bitXor` adds to the exclusive or of two words is 0.
  unfoldable pub integer_bit_xor : Object Double → Object Double → Option (Object Double)
  integer_bit_xor left right = bit_operation bit_xor large_xor left right
