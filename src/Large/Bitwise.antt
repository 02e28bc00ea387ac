-- ===== src/Large/Bitwise.antt =====
-- `LargeInteger::And`, `Or` and `Xor`. The numbers are a sign and digits, and the operations are those
-- of two's complement: where a number is negative its loop runs on the digits of its absolute value
-- less one, by a borrow, and where the result is negative one is added to its digits, by a carry.
pub mod Loop
pub mod Twos
pub mod Ops
pub mod Result
pub mod Branches
pub mod Cases
pub mod Length
pub mod Laws
use primordialsoup.Base.{
  ℕ, ◌+◌, ◌-◌, ◌/◌, ◌%◌, Bool, true, false, List, [], ◌∷◌, ltb, if◌then◌else◌, length, u64, sar32,
  bit_and, bit_or, bit_xor,
}
use primordialsoup.Large.Digits.{digit_base}
use primordialsoup.Large.Signed.{LargeInteger, clamp}

-- `~d` on a `digit_t`.
abbrev pub complement : ℕ → ℕ
complement d = 4294967295 - d

-- -1 as an `sddigit_t`: the borrow that the loops start with.
abbrev pub minus_one : ℕ
minus_one = 18446744073709551615

-- A digit of an operand: `borrow += digit; d = borrow & kDigitMask` if it is negative.
unfoldable pub operand : Bool → ℕ → ℕ → ℕ
operand true borrow d = u64 (borrow + d) % digit_base
operand false borrow d = d

-- `borrow >>= kDigitShift` after it.
unfoldable pub next_borrow : Bool → ℕ → ℕ → ℕ
next_borrow true borrow d = sar32 (u64 (borrow + d))
next_borrow false borrow d = borrow

-- A digit of the result: `r1_carry += r; set_digit(i, r1_carry & kDigitMask)` if it is negative.
abbrev pub output : Bool → ℕ → ℕ → ℕ
output true carry r = u64 (carry + r) % digit_base
output false carry r = r

abbrev pub next_carry : Bool → ℕ → ℕ → ℕ
next_carry true carry r = u64 (carry + r) / digit_base
next_carry false carry r = carry

-- The two loops that all twelve branches have: over the digits that both have, by `op`, and over
-- those that only `longer` has, by `rest`, where the other operand's digit is 0. `ns`, `nl` and `nr`
-- say whether the shorter, the longer and the result are negative.
module _ (ns nl nr : Bool) (op rest : ℕ → ℕ → ℕ) where
  unfoldable pub combine_rest : ℕ → ℕ → ℕ → List ℕ → List ℕ
  combine_rest s_borrow l_borrow carry [] = []
  combine_rest s_borrow l_borrow carry (l ∷ ls) =
      let r = rest (operand ns s_borrow 0) (operand nl l_borrow l) in
      output nr carry r
      ∷ combine_rest (next_borrow ns s_borrow 0) (next_borrow nl l_borrow l) (next_carry nr carry r)
          ls

  unfoldable pub combine : ℕ → ℕ → ℕ → List ℕ → List ℕ → List ℕ
  combine s_borrow l_borrow carry [] ls = combine_rest s_borrow l_borrow carry ls
  combine s_borrow l_borrow carry (s ∷ ss) [] = []
  combine s_borrow l_borrow carry (s ∷ ss) (l ∷ ls) =
      let r = op (operand ns s_borrow s) (operand nl l_borrow l) in
      output nr carry r
      ∷ combine (next_borrow ns s_borrow s) (next_borrow nl l_borrow l) (next_carry nr carry r) ss
          ls

-- The branches of `And`, at the signs of the shorter and of the longer operand.
unfoldable pub and_signs : Bool → Bool → List ℕ → List ℕ → LargeInteger
and_signs false false ss ls = clamp false (combine false false false bit_and (λ s l. 0) 0 0 0 ss ls)
and_signs false true ss ls =
    clamp false
      (combine false true false (λ s l. bit_and s (complement l)) (λ s l. 0) 0 minus_one 0 ss ls)
and_signs true false ss ls =
    clamp false
      (combine true false false (λ s l. bit_and l (complement s)) (λ s l. l) minus_one 0 0 ss ls)
and_signs true true ss ls =
    clamp true (combine true true true bit_or (λ s l. bit_or 0 l) minus_one minus_one 1 ss ls)

-- The branches of `Or`. That of two numbers that are not negative does not call `Clamp`.
unfoldable pub or_signs : Bool → Bool → List ℕ → List ℕ → LargeInteger
or_signs false false ss ls = record {
  negative = false;
  digits = combine false false false bit_or (λ s l. l) 0 0 0 ss ls;
}
or_signs false true ss ls = clamp true (
    combine false true true (λ s l. bit_and l (complement s)) (λ s l. bit_and l (complement 0)) 0
      minus_one 1 ss ls)
or_signs true false ss ls = clamp true (
    combine true false true (λ s l. bit_and s (complement l)) (λ s l. bit_and s (complement l))
      minus_one 0 1 ss ls)
or_signs true true ss ls =
    clamp true (combine true true true bit_and bit_and minus_one minus_one 1 ss ls)

-- The branches of `Xor`.
unfoldable pub xor_signs : Bool → Bool → List ℕ → List ℕ → LargeInteger
xor_signs false false ss ls =
    clamp false (combine false false false bit_xor (λ s l. bit_xor 0 l) 0 0 0 ss ls)
xor_signs false true ss ls =
    clamp true (combine false true true bit_xor (λ s l. bit_xor 0 l) 0 minus_one 1 ss ls)
xor_signs true false ss ls =
    clamp true (combine true false true bit_xor bit_xor minus_one 0 1 ss ls)
xor_signs true true ss ls =
    clamp false (combine true true false bit_xor bit_xor minus_one minus_one 0 ss ls)

-- The operand with more digits is `longer`, the right one if they have as many.
abbrev pub by_length :
    (Bool → Bool → List ℕ → List ℕ → LargeInteger) → LargeInteger → LargeInteger → LargeInteger
by_length branches left right =
    if ltb (length right.digits) (length left.digits)
    then branches right.negative left.negative right.digits left.digits
    else branches left.negative right.negative left.digits right.digits

unfoldable pub large_and : LargeInteger → LargeInteger → LargeInteger
unfolding and_signs
large_and left right = by_length and_signs left right

unfoldable pub large_or : LargeInteger → LargeInteger → LargeInteger
unfolding or_signs
large_or left right = by_length or_signs left right

unfoldable pub large_xor : LargeInteger → LargeInteger → LargeInteger
unfolding xor_signs
large_xor left right = by_length xor_signs left right
