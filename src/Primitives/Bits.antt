-- ===== src/Primitives/Bits.antt =====
-- `Integer_bitAnd`, `Integer_bitOr` and `Integer_bitXor`: on words, and on large integers.
use primordialsoup.Base.Int.{ℤ}
use primordialsoup.Large.Signed.{LargeInteger, integer, IsVerified}
use primordialsoup.Large.Signed.Ring.{StandsFor}
use primordialsoup.Large.Number.{
  Number, small, medium, large, number_value, expand, to_uint64, to_int64,
}
use primordialsoup.Math.{OverflowChecks}
use primordialsoup.Primitives.{
  Floats, Object, Outcome, integer_arms, return_tagged, return_mint, return_lint, tag,
}
use primordialsoup.Primitives.Arms.{Meets}
use primordialsoup.Primitives.Ring.{IsInteger}
use primordialsoup.Primitives.Words.{Op, OnWords, OnTags}

-- The condition on the operands that the last arm gets.
abbrev pub IfLarge : (LargeInteger → LargeInteger → Type 0) → Number → Number → Type 0
IfLarge P (large l) y = P l (expand y)
IfLarge P (small a) (large r) = P (expand (small a)) r
IfLarge P (medium a) (large r) = P (expand (medium a)) r
IfLarge P (small a) (small b) = Unit {0}
IfLarge P (small a) (medium b) = Unit {0}
IfLarge P (medium a) (small b) = Unit {0}
IfLarge P (medium a) (medium b) = Unit {0}

module _ (fs : Floats) (checks : OverflowChecks) (op : Op)
    (large_op : LargeInteger → LargeInteger → LargeInteger) (f : ℤ → ℤ → ℤ)
    (P : LargeInteger → LargeInteger → Type 0) (words : OnWords op f) (tags : OnTags f)
    (larges : (l r : LargeInteger)
      → IsVerified l
      → IsVerified r
      → P l r
      → StandsFor (f (integer l) (integer r)) (large_op l r)) where
  on_tags : ℤ → ℤ → Outcome (Object fs.Double)
  on_tags a b = return_tagged fs checks (to_int64 (op (to_uint64 (tag a)) (to_uint64 (tag b))))

  on_words : ℤ → ℤ → Outcome (Object fs.Double)
  on_words a b = return_mint fs checks (to_int64 (op (to_uint64 a) (to_uint64 b)))

  on_larges : LargeInteger → LargeInteger → Outcome (Object fs.Double)
  on_larges l r = return_lint fs checks (large_op l r)

  Result : Number → Number → Type 0
  Result x y =
      Meets (IsInteger (f (number_value x) (number_value y)))
        (integer_arms on_tags on_words on_larges x y)
