-- ===== src/Primitives/Shifts/Right.antt =====
-- `Integer_bitShiftRight` on integers.
use native.Mathlib.Nat.{pow-le-pow_right, div-eq_of_lt, div-le_self}
use primordialsoup.Base.{
  true-false, ℕ, zero, suc, ◌+◌, ◌*◌, ◌^◌, ◌≤◌, ◌<◌, ◌≡◌, refl, sym, ap, ◌∙◌, Bool, true, false,
  List, [], ◌∷◌, ltb, leb, if◌then◌else◌, length, arith, ltb→lt, leb→le, Bool-cases, inl, inr,
}
use primordialsoup.Base.Int.{ℤ, pos, negsuc}
use primordialsoup.Base.Powers.{two-pow_add}
use primordialsoup.Large.Digits.{value, weight, value-lt-weight, IsClamped-pos}
use primordialsoup.Large.Signed.{LargeInteger, integer, signed, IsVerified}
use primordialsoup.Large.Signed.Ring.{StandsFor}
use primordialsoup.Large.Number.{
  Number, small, medium, large, number_value, is_smi, is_int64, expand, IsNumber, IsCanonical,
}
use primordialsoup.Large.Number.Expand.{expand-StandsFor, smi-int64}
use primordialsoup.Large.Number.Reduce.{reduce-Canonical, new_integer-Canonical}
use primordialsoup.Large.Shift.Floor.{floor_div, negsuc-is}
use primordialsoup.Large.Shift.Round.{ShiftFits, shift_right-StandsFor}
use primordialsoup.Primitives.Shifts.{
  shift_word_right, Shifted, failed, at_most_bits, smi_shift_right, mint_shift_right,
  lint_shift_right, only_sign, shift_number_right,
}
use primordialsoup.Primitives.Shifts.Words.{bits_of, bits-is_int64}
use primordialsoup.Primitives.Shifts.Left.{Gives}

word_right : (a : ℤ) (right : ℕ) → shift_word_right a right ≡ floor_div a (2 ^ right)
unfolding shift_word_right floor_div
word_right (pos n) right = refl
word_right (negsuc n) right = refl

-- Where no bit is left the divisor does not matter.
no_bits : (a : ℤ) (m n : ℕ) → bits_of a < m → bits_of a < n → floor_div a m ≡ floor_div a n
unfolding floor_div
no_bits (pos k) m n h l = ap pos (div-eq_of_lt h ∙ sym (div-eq_of_lt l))
no_bits (negsuc k) m n h l = ap negsuc (div-eq_of_lt h ∙ sym (div-eq_of_lt l))

module _ (most right : ℕ) (a : ℤ) (h : bits_of a < 2 ^ most) where
  clamped_right : floor_div a (2 ^ at_most_bits most right) ≡ floor_div a (2 ^ right)
  clamped_right = elim (Bool-cases (ltb most right)) [
    | inl e ↦
        let le : 2 ^ most ≤ 2 ^ right =
          pow-le-pow_right {n = 2} (omega arith) {i = most} {j = right}
            (omega (arith, ltb→lt most right e)) in
        rw e (no_bits a (2 ^ most) (2 ^ right) h (omega arith))
    | inr e ↦ rw e refl
  ]

smi-bits : (a : ℤ) → is_smi a ≡ true → bits_of a < 2 ^ 62
unfolding is_smi
smi-bits (pos n) h = ground arith
smi-bits (negsuc n) h = ground arith

int64-bits : (a : ℤ) → is_int64 a ≡ true → bits_of a < 2 ^ 63
unfolding is_int64
int64-bits (pos n) h = ground arith
int64-bits (negsuc n) h = ground arith

quotient_bits : (a : ℤ) (m : ℕ) → bits_of (floor_div a m) ≤ bits_of a
unfolding floor_div
quotient_bits (pos n) m = div-le_self n m
quotient_bits (negsuc n) m = div-le_self n m

bits-is_smi : (z : ℤ) → bits_of z < 2 ^ 62 → is_smi z ≡ true
unfolding is_smi
bits-is_smi (pos n) h = ground arith
bits-is_smi (negsuc n) h = ground arith

module _ (a : ℤ) (right : ℕ) where
  shifted_is :
      (most : ℕ)
      → bits_of a < 2 ^ most
      → shift_word_right a (at_most_bits most right) ≡ floor_div a (2 ^ right)
  shifted_is most h = word_right a (at_most_bits most right) ∙ clamped_right most right a h

  smi-Gives : is_smi a ≡ true → Gives (floor_div a (2 ^ right)) (smi_shift_right a (pos right))
  unfolding IsCanonical
  smi-Gives h =
      let e = shifted_is 62 (smi-bits a h) in
      (e, rw e (bits-is_smi _ (omega (arith, smi-bits a h, quotient_bits a (2 ^ right)))))

  mint-Gives : is_int64 a ≡ true → Gives (floor_div a (2 ^ right)) (mint_shift_right a (pos right))
  mint-Gives h =
      let e = shifted_is 63 (int64-bits a h) in
      let fits = bits-is_int64 _ (omega (arith, int64-bits a h, quotient_bits a (2 ^ right))) in
      let c = new_integer-Canonical _ (rw e fits) in (c.0 ∙ e, c.1)

sign_below : (n m : ℕ) → 0 < n → n < m → floor_div (signed true n) m ≡ negsuc 0
unfolding floor_div
sign_below zero m h lt = absurd (omega arith)
sign_below (suc n) m h lt = rw (negsuc-is n) (ap negsuc (div-eq_of_lt (omega arith)))

-- Below the divisor only the sign is left.
sign_left :
    (negative : Bool) (ds : List ℕ) (m : ℕ)
    → IsVerified (record { negative = negative; digits = ds })
    → value ds < m
    → floor_div (signed negative (value ds)) m ≡ (if negative then negsuc 0 else pos 0)
unfolding floor_div
sign_left false ds m h lt = ap pos (div-eq_of_lt lt)
sign_left true [] m h lt = absurd (true-false h.sign)
sign_left true (d ∷ ds) m h lt = sign_below _ m (IsClamped-pos d ds h.top) lt

weight-is : (ds : List ℕ) → weight ds ≡ 2 ^ (length ds * 32)
weight-is [] = refl
weight-is (d ∷ ds) =
    let e : 32 + length ds * 32 ≡ length (d ∷ ds) * 32 = omega arith in
    ap (λ (t : ℕ). 4294967296 * t) (weight-is ds)
    ∙ sym (two-pow_add 32 (length ds * 32))
    ∙ ap (λ (t : ℕ). 2 ^ t) e

module _ (v : ℤ) (l : LargeInteger) (h : StandsFor v l) (right : ℕ)
    (le : length l.digits * 32 ≤ right) where
  only_sign-Gives : Gives (floor_div v (2 ^ right)) (only_sign l)
  unfolding IsCanonical is_smi
  only_sign-Gives =
      let pows : 2 ^ (length l.digits * 32) ≤ 2 ^ right =
        pow-le-pow_right {n = 2} (omega arith) {i = length l.digits * 32} {j = right} le in
      let below : value l.digits < 2 ^ right =
        omega (arith, value-lt-weight l.digits h.verified.in_range, weight-is l.digits) in
      (
        sym (sign_left l.negative l.digits (2 ^ right) h.verified below)
            ∙ ap (λ t. floor_div t (2 ^ right)) h.is,
        sign_smi l.negative,
      )
    where
      sign_smi : (b : Bool) → is_smi (if b then negsuc 0 else pos 0) ≡ true
      sign_smi true = refl
      sign_smi false = refl

-- The large operand of a shift has room for the result, and its bits are counted by a small integer.
abbrev pub ShiftRoom : Number → ℤ → Type 0
ShiftRoom (large l) (pos n) = ShiftFits l n
ShiftRoom (large l) (negsuc n) = Unit {0}
ShiftRoom (small a) w = Unit {0}
ShiftRoom (medium a) w = Unit {0}

abbrev pub InMemory : Number → Type 0
InMemory x = length (expand x).digits * 32 ≤ 2 ^ 62

leb-false : (a b : ℕ) → leb (a * 32) b ≡ false → b < 32 * a
leb-false a b h = ground arith

large_by_small :
    (l : LargeInteger) (right : ℕ)
    → IsVerified l
    → ShiftFits l right
    → Gives (floor_div (integer l) (2 ^ right)) (lint_shift_right l (small (pos right)))
large_by_small l right h fits = elim (Bool-cases (leb (length l.digits * 32) right)) [
  | inl e ↦
      rw e (only_sign-Gives (integer l) l (record { verified = h; is = refl }) right (leb→le _ _ e))
  | inr e ↦
      let (r, run, s) = shift_right-StandsFor l right h (leb-false _ _ e) fits in
      let c = reduce-Canonical r s.verified in rw (e, run) (c.0 ∙ s.is, c.1)
]

big_medium : (n : ℕ) → is_smi (pos n) ≡ false → 2 ^ 62 ≤ n
unfolding is_smi
big_medium n h = ground arith

big_large : (n : ℕ) → is_int64 (pos n) ≡ false → 2 ^ 62 ≤ n
unfolding is_int64
big_large n h = ground arith

-- What a shift of `v` by `w` to the right is to do.
abbrev pub ShiftsRight : ℤ → ℤ → Shifted → Type 0
ShiftsRight v (negsuc n) s = s ≡ failed
ShiftsRight v (pos n) s = Gives (floor_div v (2 ^ n)) s

by_small :
    (x : Number) (w : ℤ)
    → IsNumber x
    → ShiftRoom x w
    → ShiftsRight (number_value x) w (shift_number_right x (small w))
unfolding shift_number_right IsNumber expand
by_small (small a) (pos n) h room = smi-Gives a n h
by_small (medium a) (pos n) h room = mint-Gives a n h
by_small (large l) (pos n) h room = large_by_small l n h room
by_small (small a) (negsuc n) h room = refl
by_small (medium a) (negsuc n) h room = refl
by_small (large l) (negsuc n) h room = refl

by_medium :
    (x : Number) (w : ℤ)
    → IsNumber x
    → InMemory x
    → is_smi w ≡ false
    → ShiftsRight (number_value x) w (shift_number_right x (medium w))
unfolding shift_number_right IsNumber expand
by_medium (small a) (pos n) h memory k = mint-Gives a n (smi-int64 a h)
by_medium (medium a) (pos n) h memory k = mint-Gives a n h
by_medium (large l) (pos n) h memory k =
    only_sign-Gives (integer l) l (record { verified = h; is = refl }) n
      (omega (arith, big_medium n k))
by_medium (small a) (negsuc n) h memory k = refl
by_medium (medium a) (negsuc n) h memory k = refl
by_medium (large l) (negsuc n) h memory k = refl

large_arm :
    (x : Number) (r : LargeInteger)
    → shift_number_right x (large r) ≡ (if r.negative then failed else only_sign (expand x))
unfolding shift_number_right expand
large_arm (small a) r = refl
large_arm (medium a) r = refl
large_arm (large l) r = refl

zero_fits : is_int64 (signed true 0) ≡ true
unfolding is_int64
zero_fits = refl

by_large :
    (x : Number) (negative : Bool) (n : ℕ)
    → IsNumber x
    → InMemory x
    → is_int64 (signed negative n) ≡ false
    → ShiftsRight
        (number_value x)
        (signed negative n)
        (if negative then failed else only_sign (expand x))
by_large x false n h memory big =
    only_sign-Gives (number_value x) (expand x) (expand-StandsFor x h) n
      (omega (arith, big_large n big))
by_large x true zero h memory big = absurd (true-false (sym zero_fits ∙ big))
by_large x true (suc n) h memory big = rw (negsuc-is n) refl

-- A shift to the right by an integer in its smallest representation: by a negative one it fails, and by
-- any other it is the quotient by the power of two, rounded down, in the smallest representation, if the
-- bits of the left integer are counted by a small one and the digits of a large one have room to be
-- rounded.
pub shift_number_right-ShiftsRight :
    (x y : Number)
    → IsNumber x
    → IsCanonical y
    → InMemory x
    → ShiftRoom x (number_value y)
    → ShiftsRight (number_value x) (number_value y) (shift_number_right x y)
unfolding IsCanonical
shift_number_right-ShiftsRight x (small w) h k memory room = by_small x w h room
shift_number_right-ShiftsRight x (medium w) h k memory room = by_medium x w h memory k.0
shift_number_right-ShiftsRight x (large r) h k memory room =
    rw (large_arm x r) (by_large x r.negative (value r.digits) h memory k.1)
