-- ===== src/Large/Bitwise/Branches.antt =====
-- The twelve branches of `And`, `Or` and `Xor`. Where two negative numbers meet in `And`, and where the
-- signs differ in `Xor`, the absolute value of the result may need one digit more than there is.
use primordialsoup.Base.{
  ℕ, ◌+◌, ◌-◌, ◌≤◌, ◌<◌, ◌≡◌, refl, ◌∙◌, true, false, List, [], ◌∷◌, ap, length, bit_or, bit_xor,
  arith,
}
use native.Mathlib.Nat.{le_refl}
use primordialsoup.Base.Int.{pos, negsuc}
use primordialsoup.Base.Bits.Split.{bit_and-le}
use primordialsoup.Base.Bits.Sums.{bit_or-sum}
use primordialsoup.Large.Digits.{value, weight, IsDigits, value-lt-weight, IsClamped}
use primordialsoup.Large.Signed.{SignOf, signed}
use primordialsoup.Large.Signed.Ring.{StandsFor, to_StandsFor}
use primordialsoup.Large.Bitwise.{
  combine, combine_rest, operand, next_borrow, and_signs, or_signs, xor_signs,
}
use primordialsoup.Large.Bitwise.Loop.{combine-Computes}
use primordialsoup.Large.Bitwise.Ops.{
  and_digits, and_both, or_tail, or_digits, xor_tail, xor_digits, short_and_not, long_and_not,
  long_and_not_tail, short_and_not_tail,
}
use primordialsoup.Large.Bitwise.Twos.{and_ℤ, or_ℤ, xor_ℤ}
use primordialsoup.Large.Bitwise.Result.{
  weight-le_of_length, positive_result, negative_result, lost_result,
}

pos_sub : (n : ℕ) → n - 0 ≡ n
pos_sub n = omega arith

negative_is : (n : ℕ) → signed true (n + 1) ≡ negsuc n
negative_is n = ground arith

plain_sign : (ds : List ℕ) → SignOf false ds
plain_sign [] = refl
plain_sign (d ∷ ds) = tt

-- Where neither number is negative, the digits of their disjunction are clamped with those of `longer`.
bit_or-pos : (s l : ℕ) → 0 < l → 0 < bit_or s l
bit_or-pos s l h = omega (arith, bit_or-sum s l, bit_and-le s s l (le_refl s))

or_rest-IsClamped :
    (ls : List ℕ)
    → IsClamped ls
    → IsClamped (combine_rest false false false bit_or (λ s l. l) 0 0 0 ls)
unfolding combine_rest operand next_borrow
or_rest-IsClamped [] h = tt
or_rest-IsClamped (l ∷ []) h = h
or_rest-IsClamped (l ∷ m ∷ ls) h = or_rest-IsClamped (m ∷ ls) h

or_digits-IsClamped :
    (ss ls : List ℕ)
    → length ss ≤ length ls
    → IsClamped ls
    → IsClamped (combine false false false bit_or (λ s l. l) 0 0 0 ss ls)
unfolding combine combine_rest operand next_borrow
or_digits-IsClamped [] ls le h = or_rest-IsClamped ls h
or_digits-IsClamped (s ∷ ss) [] le h = tt
or_digits-IsClamped (s ∷ []) (l ∷ []) le h = bit_or-pos s l h
or_digits-IsClamped (s ∷ []) (l ∷ m ∷ ls) le h = or_digits-IsClamped [] (m ∷ ls) (omega arith) h
or_digits-IsClamped (s ∷ t ∷ ss) (l ∷ []) le h = absurd (omega arith)
or_digits-IsClamped (s ∷ t ∷ ss) (l ∷ m ∷ ls) le h =
    or_digits-IsClamped (t ∷ ss) (m ∷ ls) (omega arith) h

module _ (ss ls : List ℕ) (hs : IsDigits ss) (hl : IsDigits ls) (len : length ss ≤ length ls) where
  pub and-plain : StandsFor (and_ℤ (pos (value ss)) (pos (value ls))) (and_signs false false ss ls)
  unfolding and_signs and_ℤ
  and-plain =
      to_StandsFor _ (simp pos_sub)
        (positive_result false false ss ls hs hl len (omega arith) (omega arith) and_digits)

  pub and-long_negative :
      1 ≤ value ls
      → StandsFor (and_ℤ (pos (value ss)) (negsuc (value ls - 1))) (and_signs false true ss ls)
  unfolding and_signs and_ℤ
  and-long_negative pl =
      to_StandsFor _ (simp pos_sub)
        (positive_result false true ss ls hs hl len (omega arith) pl short_and_not)

  pub and-short_negative :
      1 ≤ value ss
      → StandsFor (and_ℤ (negsuc (value ss - 1)) (pos (value ls))) (and_signs true false ss ls)
  unfolding and_signs and_ℤ
  and-short_negative ps =
      to_StandsFor _ (simp pos_sub)
        (positive_result true false ss ls hs hl len ps (omega arith) long_and_not)

  pub and-both_negative :
      1 ≤ value ss
      → 1 ≤ value ls
      → bit_or (value ss - 1) (value ls - 1) + 1 < weight ls
      → StandsFor
          (and_ℤ (negsuc (value ss - 1)) (negsuc (value ls - 1)))
          (and_signs true true ss ls)
  unfolding and_signs and_ℤ
  and-both_negative ps pl fits =
      to_StandsFor _ (negative_is _) (negative_result true true ss ls hs hl len ps pl or_tail fits)

  pub and-both_negative_lost :
      1 ≤ value ss
      → 1 ≤ value ls
      → weight ls ≤ bit_or (value ss - 1) (value ls - 1) + 1
      → StandsFor (pos 0) (and_signs true true ss ls)
  unfolding and_signs
  and-both_negative_lost ps pl fits =
      to_StandsFor _ refl (lost_result true true ss ls hs hl len ps pl or_tail fits)

  pub or-plain :
      IsClamped ls → StandsFor (or_ℤ (pos (value ss)) (pos (value ls))) (or_signs false false ss ls)
  unfolding or_signs or_ℤ
  or-plain top =
      let c =
        combine-Computes false false or_digits 0 0 ss ls refl refl (omega arith) (omega arith) hs hl
          len in
      record {
        verified = record {
          in_range = c.in_range;
          top = or_digits-IsClamped ss ls len top;
          sign = plain_sign _;
        };
        is = ap pos (c.is ∙ rw (pos_sub (value ss), pos_sub (value ls)) refl);
      }

  pub or-long_negative :
      1 ≤ value ls
      → StandsFor (or_ℤ (pos (value ss)) (negsuc (value ls - 1))) (or_signs false true ss ls)
  unfolding or_signs or_ℤ
  or-long_negative pl = to_StandsFor _ (negative_is _ ∙ simp pos_sub) (
      negative_result false true ss ls hs hl len (omega arith) pl long_and_not_tail
        (simp pos_sub (omega (arith, value-lt-weight ls hl))))

  pub or-short_negative :
      1 ≤ value ss
      → StandsFor (or_ℤ (negsuc (value ss - 1)) (pos (value ls))) (or_signs true false ss ls)
  unfolding or_signs or_ℤ
  or-short_negative ps = to_StandsFor _ (negative_is _ ∙ simp pos_sub) (
      negative_result true false ss ls hs hl len ps (omega arith) short_and_not_tail
        (simp pos_sub (omega (arith, value-lt-weight ss hs, weight-le_of_length ss ls len))))

  pub or-both_negative :
      1 ≤ value ss
      → 1 ≤ value ls
      → StandsFor (or_ℤ (negsuc (value ss - 1)) (negsuc (value ls - 1))) (or_signs true true ss ls)
  unfolding or_signs or_ℤ
  or-both_negative ps pl = to_StandsFor _ (negative_is _) (
      negative_result true true ss ls hs hl len ps pl and_both (
        omega (
          arith,
          value-lt-weight ss hs,
          weight-le_of_length ss ls len,
          bit_and-le (value ss - 1) (value ss - 1) (value ls - 1) (le_refl _),
        )))

  pub xor-plain : StandsFor (xor_ℤ (pos (value ss)) (pos (value ls))) (xor_signs false false ss ls)
  unfolding xor_signs xor_ℤ
  xor-plain =
      to_StandsFor _ (simp pos_sub)
        (positive_result false false ss ls hs hl len (omega arith) (omega arith) xor_tail)

  pub xor-long_negative :
      1 ≤ value ls
      → bit_xor (value ss) (value ls - 1) + 1 < weight ls
      → StandsFor (xor_ℤ (pos (value ss)) (negsuc (value ls - 1))) (xor_signs false true ss ls)
  unfolding xor_signs xor_ℤ
  xor-long_negative pl fits =
      to_StandsFor _ (negative_is _ ∙ simp pos_sub)
        (negative_result false true ss ls hs hl len (omega arith) pl xor_tail (simp pos_sub fits))

  pub xor-long_negative_lost :
      1 ≤ value ls
      → weight ls ≤ bit_xor (value ss) (value ls - 1) + 1
      → StandsFor (pos 0) (xor_signs false true ss ls)
  unfolding xor_signs
  xor-long_negative_lost pl fits =
      to_StandsFor _ refl
        (lost_result false true ss ls hs hl len (omega arith) pl xor_tail (simp pos_sub fits))

  pub xor-short_negative :
      1 ≤ value ss
      → bit_xor (value ss - 1) (value ls) + 1 < weight ls
      → StandsFor (xor_ℤ (negsuc (value ss - 1)) (pos (value ls))) (xor_signs true false ss ls)
  unfolding xor_signs xor_ℤ
  xor-short_negative ps fits =
      to_StandsFor _ (negative_is _ ∙ simp pos_sub)
        (negative_result true false ss ls hs hl len ps (omega arith) xor_digits (simp pos_sub fits))

  pub xor-short_negative_lost :
      1 ≤ value ss
      → weight ls ≤ bit_xor (value ss - 1) (value ls) + 1
      → StandsFor (pos 0) (xor_signs true false ss ls)
  unfolding xor_signs
  xor-short_negative_lost ps fits =
      to_StandsFor _ refl
        (lost_result true false ss ls hs hl len ps (omega arith) xor_digits (simp pos_sub fits))

  pub xor-both_negative :
      1 ≤ value ss
      → 1 ≤ value ls
      → StandsFor
          (xor_ℤ (negsuc (value ss - 1)) (negsuc (value ls - 1)))
          (xor_signs true true ss ls)
  unfolding xor_signs xor_ℤ
  xor-both_negative ps pl =
      to_StandsFor _ refl (positive_result true true ss ls hs hl len ps pl xor_digits)
