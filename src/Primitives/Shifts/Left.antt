-- ===== src/Primitives/Shifts/Left.antt =====
-- `Integer_bitShiftLeft` on integers.
use primordialsoup.Base.{
  ℕ, zero, suc, ◌+◌, ◌^◌, ◌≡◌, refl, sym, ap, ◌∙◌, Bool, true, false, ltb, leb, if◌then◌else◌,
  arith, ltb→lt, leb→le, Bool-cases, inl, inr,
}
use primordialsoup.Base.Int.{ℤ, pos, negsuc, ◌*ℤ◌}
use primordialsoup.Large.Signed.{LargeInteger, signed}
use primordialsoup.Large.Digits.{value}
use primordialsoup.Large.Shift.Floor.{negsuc-is}
use primordialsoup.Large.Number.{
  Number, small, medium, large, number_value, is_smi, is_int64, expand, IsNumber, IsCanonical,
}
use primordialsoup.Large.Number.Expand.{expand-StandsFor, smi-int64}
use primordialsoup.Large.Number.Reduce.{reduce-Canonical, new_integer-Canonical}
use primordialsoup.Large.Shift.Left.{shift_left-StandsFor}
use primordialsoup.Primitives.Shifts.{
  bit_length, shift_word_left, Shifted, skip, failed, stopped, returned, ◌or_else◌, smi_shift_left,
  mint_shift_left, lint_shift_left, shift_number_left,
}
use primordialsoup.Primitives.Shifts.Words.{word_left, room_left, bits-is_smi, bits-is_int64}

-- The result of an arm: the product, in the smallest representation.
abbrev pub Gives : ℤ → Shifted → Type 0
Gives v skip = ⊥
Gives v failed = ⊥
Gives v stopped = ⊥
Gives v (returned r) = (number_value r ≡ v) × IsCanonical r

abbrev pub MayGive : ℤ → Shifted → Type 0
MayGive v skip = Unit {0}
MayGive v failed = ⊥
MayGive v stopped = ⊥
MayGive v (returned r) = (number_value r ≡ v) × IsCanonical r

pub Gives-or_else : (v : ℤ) (s t : Shifted) → MayGive v s → Gives v t → Gives v (s or_else t)
Gives-or_else v skip t h k = k
Gives-or_else v failed t h k = h
Gives-or_else v stopped t h k = h
Gives-or_else v (returned r) t h k = h

module _ (a : ℤ) (right : ℕ) where
  smi-MayGive : is_smi a ≡ true → MayGive (a *ℤ pos (2 ^ right)) (smi_shift_left a (pos right))
  unfolding IsCanonical
  smi-MayGive h = elim (Bool-cases (ltb (bit_length a + right) 62)) [
    | inl e ↦
        let (is, small_bits) =
          word_left right (2 ^ 61) (omega arith) a (smi-int64 a h)
            (room_left a right 61 (smi-int64 a h) (omega (arith, ltb→lt _ _ e))) in
        rw e (is, bits-is_smi (shift_word_left a right) small_bits)
    | inr e ↦ rw e tt
  ]

  mint-MayGive : is_int64 a ≡ true → MayGive (a *ℤ pos (2 ^ right)) (mint_shift_left a (pos right))
  mint-MayGive h = elim (Bool-cases (leb (bit_length a + right) 63)) [
    | inl e ↦
        let (is, small_bits) =
          word_left right (2 ^ 63) (omega arith) a h (room_left a right 63 h (leb→le _ _ e)) in
        let c = new_integer-Canonical (shift_word_left a right) (bits-is_int64 _ small_bits) in
        rw e (c.0 ∙ is, c.1)
    | inr e ↦ rw e tt
  ]

module _ (right : ℕ) where
  lint-Gives :
      (x : Number)
      → IsNumber x
      → Gives (number_value x *ℤ pos (2 ^ right)) (lint_shift_left (expand x) (small (pos right)))
  lint-Gives x hx =
      let l = expand-StandsFor x hx in
      let s = shift_left-StandsFor (expand x) right l.verified in
      let c = reduce-Canonical _ s.verified in
      (c.0 ∙ s.is ∙ ap (λ (t : ℤ). t *ℤ pos (2 ^ right)) l.is, c.1)

  by_small-Gives :
      (x : Number)
      → IsNumber x
      → Gives (number_value x *ℤ pos (2 ^ right)) (shift_number_left x (small (pos right)))
  unfolding shift_number_left IsNumber
  by_small-Gives (small a) h =
      Gives-or_else _ (smi_shift_left a (pos right)) _ (smi-MayGive a right h) (
        Gives-or_else _ (mint_shift_left a (pos right)) _ (mint-MayGive a right (smi-int64 a h))
          (lint-Gives (small a) h))
  by_small-Gives (medium a) h =
      Gives-or_else _ (mint_shift_left a (pos right)) _ (mint-MayGive a right h)
        (lint-Gives (medium a) h)
  by_small-Gives (large l) h = lint-Gives (large l) h

-- A shift by more than a small integer has no room.
no_room : (l right : ℕ) → is_smi (pos right) ≡ false → leb (l + right) 63 ≡ false
unfolding is_smi
no_room l right h = ground arith

by_medium :
    (x : Number) (right : ℕ)
    → is_smi (pos right) ≡ false
    → shift_number_left x (medium (pos right)) ≡ stopped
unfolding shift_number_left expand
by_medium (small a) right h = rw (no_room (bit_length a) right h) refl
by_medium (medium a) right h = rw (no_room (bit_length a) right h) refl
by_medium (large l) right h = refl

by_large :
    (x : Number) (r : LargeInteger)
    → shift_number_left x (large r) ≡ (if r.negative then failed else stopped)
unfolding shift_number_left expand
by_large (small a) r = refl
by_large (medium a) r = refl
by_large (large l) r = refl

by_negative_small : (x : Number) (n : ℕ) → shift_number_left x (small (negsuc n)) ≡ failed
unfolding shift_number_left expand
by_negative_small (small a) n = refl
by_negative_small (medium a) n = refl
by_negative_small (large l) n = refl

by_negative_medium : (x : Number) (n : ℕ) → shift_number_left x (medium (negsuc n)) ≡ failed
unfolding shift_number_left expand
by_negative_medium (small a) n = refl
by_negative_medium (medium a) n = refl
by_negative_medium (large l) n = refl

-- What a shift of `v` by `w` to the left is to do: fail, give the product with the power of two, or
-- run out of memory.
abbrev pub ShiftsLeft : ℤ → ℤ → Shifted → Type 0
ShiftsLeft v (negsuc n) s = s ≡ failed
ShiftsLeft v (pos n) s = if is_smi (pos n) then Gives (v *ℤ pos (2 ^ n)) s else s ≡ stopped

no_smi : (n : ℕ) → is_int64 (pos n) ≡ false → is_smi (pos n) ≡ false
unfolding is_int64 is_smi
no_smi n h = ground arith

false-true : false ≡ true → ⊥
false-true h = cc

zero_fits : is_int64 (signed true 0) ≡ true
unfolding is_int64
zero_fits = refl

large-ShiftsLeft :
    (v : ℤ) (s : Shifted) (negative : Bool) (n : ℕ)
    → is_int64 (signed negative n) ≡ false
    → s ≡ (if negative then failed else stopped)
    → ShiftsLeft v (signed negative n) s
large-ShiftsLeft v s false n big e = rw (no_smi n big) e
large-ShiftsLeft v s true zero big e = absurd (false-true (sym big ∙ zero_fits))
large-ShiftsLeft v s true (suc n) big e = rw (negsuc-is n) e

-- A shift to the left by an integer in its smallest representation: by a negative one it fails, by a
-- small one it is the product with the power of two, in the smallest representation, and by any other it
-- runs out of memory.
pub shift_number_left-ShiftsLeft :
    (x y : Number)
    → IsNumber x
    → IsCanonical y
    → ShiftsLeft (number_value x) (number_value y) (shift_number_left x y)
unfolding IsCanonical
shift_number_left-ShiftsLeft x (small (pos n)) h k = rw k (by_small-Gives n x h)
shift_number_left-ShiftsLeft x (small (negsuc n)) h k = by_negative_small x n
shift_number_left-ShiftsLeft x (medium (pos n)) h k = rw (k.0) (by_medium x n k.0)
shift_number_left-ShiftsLeft x (medium (negsuc n)) h k = by_negative_medium x n
shift_number_left-ShiftsLeft x (large r) h k =
    large-ShiftsLeft _ _ r.negative (value r.digits) k.1 (by_large x r)
