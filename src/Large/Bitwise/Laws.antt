-- ===== src/Large/Bitwise/Laws.antt =====
-- `And`, `Or` and `Xor` on verified integers are the operations of two's complement, wherever the
-- result fits the digits that the code allocates for it.
use primordialsoup.Base.{◌≢◌, refl}
use primordialsoup.Base.Int.{pos}
use primordialsoup.Large.Signed.{LargeInteger, integer, IsVerified}
use primordialsoup.Large.Signed.Ring.{StandsFor}
use primordialsoup.Large.Bitwise.{and_signs, or_signs, xor_signs, large_and, large_or, large_xor}
use primordialsoup.Large.Bitwise.Twos.{and_ℤ, or_ℤ, xor_ℤ}
use primordialsoup.Large.Bitwise.Cases.{
  AndFits, XorFits, AndLost, XorLost, Always, and_signs_lem, xor_signs_lem, or_signs-Always,
  and_signs_lost, xor_signs_lost, AndLost-ne, XorLost-ne,
}
use primordialsoup.Large.Bitwise.Length.{
  and_ℤ_comm, or_ℤ_comm, xor_ℤ_comm, ByLength, by_length-StandsFor, ByLength-ne, Always-ByLength,
}

module _ (left right : LargeInteger) (hl : IsVerified left) (hr : IsVerified right) where
  -- `And` of verified integers is verified and stands for their conjunction in two's complement,
  -- unless both are negative and the result needs one digit more than the longer operand has.
  pub and-StandsFor :
      ByLength AndFits left right
      → StandsFor (and_ℤ (integer left) (integer right)) (large_and left right)
  unfolding large_and
  and-StandsFor =
      by_length-StandsFor and_signs AndFits and_ℤ and_ℤ_comm and_signs_lem left right hl hr

  -- `Or` of verified integers is verified and stands for their disjunction in two's complement.
  pub or-StandsFor : StandsFor (or_ℤ (integer left) (integer right)) (large_or left right)
  unfolding large_or
  or-StandsFor =
      by_length-StandsFor or_signs Always or_ℤ or_ℤ_comm or_signs-Always left right hl hr
        (Always-ByLength left right)

  -- `Xor` of verified integers is verified and stands for their exclusive disjunction in two's
  -- complement, unless the signs differ and the result needs one digit more than the longer has.
  pub xor-StandsFor :
      ByLength XorFits left right
      → StandsFor (xor_ℤ (integer left) (integer right)) (large_xor left right)
  unfolding large_xor
  xor-StandsFor =
      by_length-StandsFor xor_signs XorFits xor_ℤ xor_ℤ_comm xor_signs_lem left right hl hr

  -- Where the result of `And` of two negative integers needs that digit, the result is 0, which is not
  -- the conjunction: that is negative.
  pub and_lost :
      ByLength AndLost left right
      → StandsFor (pos 0) (large_and left right) × (and_ℤ (integer left) (integer right) ≢ pos 0)
  unfolding large_and
  and_lost lost = (
    by_length-StandsFor and_signs AndLost (λ a b. pos 0) (λ a b. refl) and_signs_lost left right hl
        hr lost,
    ByLength-ne AndLost and_ℤ and_ℤ_comm AndLost-ne left right hl hr lost,
  )

  -- Where the result of `Xor` needs it, the result is 0, which is not the exclusive disjunction.
  pub xor_lost :
      ByLength XorLost left right
      → StandsFor (pos 0) (large_xor left right) × (xor_ℤ (integer left) (integer right) ≢ pos 0)
  unfolding large_xor
  xor_lost lost = (
    by_length-StandsFor xor_signs XorLost (λ a b. pos 0) (λ a b. refl) xor_signs_lost left right hl
        hr lost,
    ByLength-ne XorLost xor_ℤ xor_ℤ_comm XorLost-ne left right hl hr lost,
  )
