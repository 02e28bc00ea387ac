-- ===== src/Large/Bitwise/Result.antt =====
-- The result of a branch of `And`, `Or` or `Xor`, by the sign of the result.
use primordialsoup.Base.{
  ℕ, ◌+◌, ◌-◌, ◌*◌, ◌≤◌, ◌<◌, ◌≡◌, refl, ap, ◌∙◌, Bool, true, false, List, [], ◌∷◌, if◌then◌else◌,
  length, arith,
}
use primordialsoup.Base.Int.{pos, negsuc}
use primordialsoup.Large.Digits.{value, weight, IsDigits}
use primordialsoup.Large.Sum.{
  increment_digits-IsDigits, value-increment_digits, value-increment_digits_wrap,
}
use primordialsoup.Large.Signed.{signed, clamp}
use primordialsoup.Large.Signed.Ring.{Stands, clamp-Stands, Stands-eq}
use primordialsoup.Large.Bitwise.{combine}
use primordialsoup.Large.Bitwise.Loop.{IsDigitwise, combine-Computes, combine-increment, MayBorrow}

pub weight-le_of_length : (ss ls : List ℕ) → length ss ≤ length ls → weight ss ≤ weight ls
weight-le_of_length [] [] h = omega arith
weight-le_of_length [] (l ∷ ls) h = omega (arith, weight-le_of_length [] ls (omega arith))
weight-le_of_length (s ∷ ss) [] h = absurd (omega arith)
weight-le_of_length (s ∷ ss) (l ∷ ls) h = omega (arith, weight-le_of_length ss ls (omega arith))

-- The absolute value less one, of a negative number.
abbrev pub borrow_of : Bool → ℕ
borrow_of true = 1
borrow_of false = 0

magnitude :
    (neg : Bool) (n : ℕ)
    → borrow_of neg ≤ n
    → signed neg n ≡ (if neg then negsuc (n - 1) else pos n)
magnitude true n h = ground arith
magnitude false n h = refl

borrow_of-MayBorrow : (neg : Bool) → MayBorrow neg (borrow_of neg)
borrow_of-MayBorrow true = omega arith
borrow_of-MayBorrow false = refl

module _ (ns nl : Bool) (ss ls : List ℕ) (hs : IsDigits ss) (hl : IsDigits ls)
    (len : length ss ≤ length ls) (ps : borrow_of ns ≤ value ss) (pl : borrow_of nl ≤ value ls)
    {op rest full : ℕ → ℕ → ℕ} (good : IsDigitwise op rest full) where
  abbrev pub result_digits : List ℕ
  result_digits =
      combine ns nl false op rest (18446744073709551615 * borrow_of ns)
        (18446744073709551615 * borrow_of nl) 0 ss ls

  abbrev pub negative_digits : List ℕ
  negative_digits =
      combine ns nl true op rest (18446744073709551615 * borrow_of ns)
        (18446744073709551615 * borrow_of nl) 1 ss ls

  abbrev pub wanted : ℕ
  wanted = full (value ss - borrow_of ns) (value ls - borrow_of nl)

  pub positive_result : Stands false wanted (clamp false result_digits)
  positive_result =
      let c =
        combine-Computes ns nl good (borrow_of ns) (borrow_of nl) ss ls (borrow_of-MayBorrow ns)
          (borrow_of-MayBorrow nl) ps pl hs hl len in
      Stands-eq _ _ _ c.is (clamp-Stands false _ c.in_range)

  pub negative_result :
      wanted + 1 < weight ls → Stands true (wanted + 1) (clamp true negative_digits)
  negative_result lt =
      let c =
        combine-Computes ns nl good (borrow_of ns) (borrow_of nl) ss ls (borrow_of-MayBorrow ns)
          (borrow_of-MayBorrow nl) ps pl hs hl len in
      rw (combine-increment ns nl op rest _ _ 1 ss ls) (
        Stands-eq _ _ _
          (value-increment_digits 1 result_digits (omega arith) c.in_range
              (omega (arith, c.is, c.width))
            ∙ ap (λ (t : ℕ). t + 1) c.is)
          (clamp-Stands true _ (increment_digits-IsDigits 1 result_digits)))

  pub lost_result : weight ls ≤ wanted + 1 → Stands true 0 (clamp true negative_digits)
  lost_result le =
      let c =
        combine-Computes ns nl good (borrow_of ns) (borrow_of nl) ss ls (borrow_of-MayBorrow ns)
          (borrow_of-MayBorrow nl) ps pl hs hl len in
      rw (combine-increment ns nl op rest _ _ 1 ss ls) (
        Stands-eq _ _ _
          (value-increment_digits_wrap 1 result_digits (omega arith) c.in_range
            (omega (arith, c.is, c.width)))
          (clamp-Stands true _ (increment_digits-IsDigits 1 result_digits)))
