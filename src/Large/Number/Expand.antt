-- ===== src/Large/Number/Expand.antt =====
-- `Expand` keeps the integer.
use primordialsoup.Base.{ℕ, suc, ◌-◌, ◌<◌, ◌≡◌, refl, ap, ◌∙◌, true, ltb, u64, arith}
use primordialsoup.Base.Int.{ℤ, pos, negsuc}
use primordialsoup.Large.Digits.{value, IsDigits, IsClamped}
use primordialsoup.Large.Signed.{signed}
use primordialsoup.Large.Signed.Ring.{StandsFor}
use primordialsoup.Large.Shift.Left.{positive-SignOf}
use primordialsoup.Large.Shift.Floor.{negsuc-is}
use primordialsoup.Large.Shift.Round.{false-SignOf}
use primordialsoup.Large.Number.{
  Number, small, medium, large, number_value, is_smi, is_int64, to_uint64, digits_of, expand_value,
  expand, IsNumber,
}

value-digits_of : (n : ℕ) → n < 18446744073709551616 → value (digits_of 2 n) ≡ n
unfolding digits_of
value-digits_of n h = ground arith

digits_of-IsDigits : (n : ℕ) → n < 18446744073709551616 → IsDigits (digits_of 2 n)
unfolding digits_of
digits_of-IsDigits n h = ground arith

digits_of-IsClamped : (n : ℕ) → n < 18446744073709551616 → IsClamped (digits_of 2 n)
unfolding digits_of
digits_of-IsClamped n h = ground arith

pub smi-int64 : (v : ℤ) → is_smi v ≡ true → is_int64 v ≡ true
unfolding is_smi is_int64
smi-int64 (pos n) h = ground arith
smi-int64 (negsuc n) h = ground arith

-- The absolute value of a negative number is computed by a negation of its pattern.
absolute :
    (n : ℕ) → is_int64 (negsuc n) ≡ true → u64 (18446744073709551616 - to_uint64 (negsuc n)) ≡ suc n
unfolding is_int64 to_uint64
absolute n h = ground arith

below : (n : ℕ) → ltb n 9223372036854775808 ≡ true → suc n < 18446744073709551616
below n h = ground arith

expand_value-StandsFor : (v : ℤ) → is_int64 v ≡ true → StandsFor v (expand_value v)
unfolding expand_value to_uint64
expand_value-StandsFor (pos n) h =
    let bound = below n (unfold is_int64 in h) in
    record {
      verified = record {
        in_range = digits_of-IsDigits n (omega (arith, bound));
        top = digits_of-IsClamped n (omega (arith, bound));
        sign = false-SignOf (digits_of 2 n);
      };
      is = ap pos (value-digits_of n (omega (arith, bound)));
    }
expand_value-StandsFor (negsuc n) h =
    let bound = below n (unfold is_int64 in h) in
    let e = absolute n h in
    let is = ap (λ (t : ℕ). value (digits_of 2 t)) e ∙ value-digits_of (suc n) bound in
    record {
      verified = record {
        in_range = rw e (digits_of-IsDigits (suc n) bound);
        top = rw e (digits_of-IsClamped (suc n) bound);
        sign = positive-SignOf true _ (rw is (omega arith));
      };
      is = ap (signed true) is ∙ negsuc-is n;
    }

-- `Expand` of an integer is verified and stands for it.
pub expand-StandsFor : (n : Number) → IsNumber n → StandsFor (number_value n) (expand n)
unfolding expand IsNumber
expand-StandsFor (small v) h = expand_value-StandsFor v (smi-int64 v h)
expand-StandsFor (medium v) h = expand_value-StandsFor v h
expand-StandsFor (large l) h = record { verified = h; is = refl }
