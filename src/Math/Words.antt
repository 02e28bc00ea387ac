-- ===== src/Math/Words.antt =====
-- The quotients and remainders of words are words, but for one quotient.
use native.Mathlib.Nat.{div-le_self, div-mul-le_self, mul-le-mul_left}
use primordialsoup.Base.{
  true-false, ℕ, zero, suc, ◌+◌, ◌*◌, ◌/◌, ◌%◌, ◌≤◌, ◌<◌, ◌≡◌, ◌≢◌, refl, sym, ◌∙◌, Bool, true,
  false, inl, inr, Bool-cases, arith,
}
use primordialsoup.Base.Int.{eq_ℤ, ℤ, pos, negsuc, ◌-ℤ◌}
use primordialsoup.Large.Signed.{signed, same, is_negative}
use primordialsoup.Large.Number.{is_int64}
use primordialsoup.Large.Divide.Spec.{absolute}
use primordialsoup.Math.{
  quotient_overflows, floor_mod_word, absolute_value, is_zero, trunc_div, trunc_mod, floor_div_word,
}
use primordialsoup.Math.Division.{divisions-are}
use primordialsoup.Large.Divide.Spec.{IsDivision}

halved : (n m : ℕ) → 2 ≤ m → n / m * 2 ≤ n
halved n m h =
    let le : n / m * 2 ≤ n / m * m = mul-le-mul_left (n / m) h in
    omega (arith, le, div-mul-le_self n m)

-- A remainder is smaller than a word.
pub smaller-int64 : (b r : ℤ) → is_int64 b ≡ true → absolute r < absolute b → is_int64 r ≡ true
unfolding is_int64
smaller-int64 (pos b) (pos r) h l = ground arith
smaller-int64 (pos b) (negsuc r) h l = ground arith
smaller-int64 (negsuc b) (pos r) h l = ground arith
smaller-int64 (negsuc b) (negsuc r) h l = ground arith

negative-int64 : (n : ℕ) → n ≤ 9223372036854775808 → is_int64 (signed true n) ≡ true
unfolding is_int64
negative-int64 zero h = refl
negative-int64 (suc n) h = ground arith

pub trunc_div-int64 :
    (a b : ℤ) → is_int64 a ≡ true → quotient_overflows a b ≡ false → is_int64 (trunc_div a b) ≡ true
unfolding trunc_div is_int64 eq_ℤ
trunc_div-int64 (pos a) (pos b) h k = let le = div-le_self (a + 0) (b + 0) in ground arith
trunc_div-int64 (pos a) (negsuc b) h k =
    let le = div-le_self (absolute_value (pos a)) (absolute_value (negsuc b)) in
    negative-int64 (absolute_value (pos a) / absolute_value (negsuc b)) (ground arith)
trunc_div-int64 (negsuc a) (pos b) h k =
    let le = div-le_self (absolute_value (negsuc a)) (absolute_value (pos b)) in
    negative-int64 (absolute_value (negsuc a) / absolute_value (pos b)) (ground arith)
trunc_div-int64 (negsuc a) (negsuc zero) h k =
    let le = div-le_self (absolute_value (negsuc a)) (absolute_value (negsuc 0)) in ground arith
trunc_div-int64 (negsuc a) (negsuc (suc b)) h k =
    let le = halved (absolute_value (negsuc a)) (absolute_value (negsuc (suc b))) (omega arith) in
    ground arith

less_one-int64 : (n : ℕ) → n < 9223372036854775808 → is_int64 (signed true n -ℤ pos 1) ≡ true
unfolding is_int64 ◌-ℤ◌
less_one-int64 zero h = refl
less_one-int64 (suc n) h = ground arith

zero_is_zero : (b : Bool) (n : ℕ) → n ≡ 0 → is_zero (signed b n) ≡ true
zero_is_zero true n h = rw h refl
zero_is_zero false n h = rw h refl

-- 1 leaves no remainder.
at_least_two : (a b : ℤ) → b ≢ pos 0 → is_zero (trunc_mod a b) ≡ false → 2 ≤ absolute_value b
unfolding trunc_mod
at_least_two a (pos zero) nz r = absurd (nz refl)
at_least_two a (pos (suc zero)) nz r =
    absurd
      (true-false (sym (zero_is_zero (is_negative a) (absolute_value a % 1) (omega arith)) ∙ r))
at_least_two a (pos (suc (suc b))) nz r = omega arith
at_least_two a (negsuc zero) nz r =
    absurd
      (true-false (sym (zero_is_zero (is_negative a) (absolute_value a % 1) (omega arith)) ∙ r))
at_least_two a (negsuc (suc b)) nz r = omega arith

absolute-int64 : (a : ℤ) → is_int64 a ≡ true → absolute_value a ≤ 9223372036854775808
unfolding is_int64
absolute-int64 (pos n) h = ground arith
absolute-int64 (negsuc n) h = ground arith

-- What is rounded down is at most half of the dividend.
rounded-int64 :
    (a b : ℤ)
    → is_int64 a ≡ true
    → b ≢ pos 0
    → is_zero (trunc_mod a b) ≡ false
    → same (is_negative a) (is_negative b) ≡ false
    → is_int64 (trunc_div a b -ℤ pos 1) ≡ true
unfolding trunc_div
rounded-int64 a b h nz r s =
    let le = halved (absolute_value a) (absolute_value b) (at_least_two a b nz r) in
    rw s (less_one-int64 _ (omega (arith, le, absolute-int64 a h)))

pub floor_div-int64 :
    (a b : ℤ)
    → is_int64 a ≡ true
    → b ≢ pos 0
    → quotient_overflows a b ≡ false
    → is_int64 (floor_div_word a b) ≡ true
unfolding floor_div_word
floor_div-int64 a b h nz k = elim (Bool-cases (is_zero (trunc_mod a b))) [
  | inl z ↦ rw z (trunc_div-int64 a b h k)
  | inr z ↦ elim (Bool-cases (same (is_negative a) (is_negative b))) [
    | inl s ↦ rw (z, s) (trunc_div-int64 a b h k)
    | inr s ↦ rw (z, s) (rounded-int64 a b h nz z s)
  ]
]

-- For two words, a divisor that is not 0, and not the smallest word by -1, `TruncDiv` and `TruncMod`
-- yield a quotient and a remainder that are words: the dividend is the product of the quotient and the
-- divisor and the remainder, which is smaller than the divisor and has the sign of the dividend or is
-- 0. The same holds of `FloorDiv` and `FloorMod`, but that the remainder has the sign of the divisor or
-- is 0.
pub word_divisions-are :
    (a b : ℤ)
    → is_int64 a ≡ true
    → is_int64 b ≡ true
    → b ≢ pos 0
    → quotient_overflows a b ≡ false
    → (IsDivision a a b (trunc_div a b) (trunc_mod a b)
        × (is_int64 (trunc_div a b) ≡ true)
        × (is_int64 (trunc_mod a b) ≡ true))
      × (IsDivision b a b (floor_div_word a b) (floor_mod_word a b)
          × (is_int64 (floor_div_word a b) ≡ true)
          × (is_int64 (floor_mod_word a b) ≡ true))
word_divisions-are a b ha hb nz fits =
    let (truncated, floored) = divisions-are a b nz in
    (
      (
        truncated,
        trunc_div-int64 a b ha fits,
        smaller-int64 b (trunc_mod a b) hb truncated.smaller,
      ),
      (
        floored,
        floor_div-int64 a b ha nz fits,
        smaller-int64 b (floor_mod_word a b) hb floored.smaller,
      ),
    )
