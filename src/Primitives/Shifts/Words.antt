-- ===== src/Primitives/Shifts/Words.antt =====
-- `Utils::BitLength` and `Math::ShiftLeft`: a shift that the bit length leaves room for is a product.
use mathlib.Core.Path.{subst}
use native.Mathlib.Nat.{suc-mul, add-mul, mul-le-mul_right, pow-le-pow_right}
use primordialsoup.Base.{
  ℕ, suc, ◌+◌, ◌-◌, ◌*◌, ◌^◌, ◌≤◌, ◌<◌, ◌≡◌, sym, ap, ◌∙◌, true, ◌==◌, if◌then◌else◌, u64, arith,
  Bool-cases, inl, inr,
}
use primordialsoup.Base.Int.{ℤ, pos, negsuc, ◌*ℤ◌}
use primordialsoup.Base.Powers.{two-pow_add, two-pow_pos}
use primordialsoup.Large.Number.{is_smi, is_int64, to_uint64, to_int64}
use primordialsoup.Math.{highest_bit, highest_bit_of}
use primordialsoup.Math.Overflow.{below_power}
use primordialsoup.Primitives.Shifts.{bit_length, shift_word_left}

-- The number whose bits a 64-bit integer has, the sign aside.
abbrev pub bits_of : ℤ → ℕ
bits_of (pos n) = n
bits_of (negsuc n) = n

zero_bits : (n : ℕ) → (n == 0) ≡ true → n < 2 ^ 0
zero_bits n h = ground arith

bound : (n : ℕ) → n < 2 ^ 64 → n < 2 ^ (if n == 0 then 0 else highest_bit (pos n) + 1)
unfolding highest_bit
bound n h = elim (Bool-cases (n == 0)) [
  | inl e ↦ rw e (zero_bits n e)
  | inr e ↦
      let k : n < 2 ^ suc (highest_bit_of 64 (n + 0)) =
        subst (λ (t : ℕ). n < 2 ^ suc (highest_bit_of 64 t)) (omega arith) (below_power 64 n h) in
      let plus : suc (highest_bit_of 64 (n + 0)) ≡ highest_bit_of 64 (n + 0) + 1 = omega arith in
      rw e (subst (λ (t : ℕ). n < 2 ^ t) plus k)
]

bit_length-bound : (a : ℤ) → is_int64 a ≡ true → bits_of a < 2 ^ bit_length a
unfolding is_int64 bit_length
bit_length-bound (pos n) h = bound n (ground arith)
bit_length-bound (negsuc n) h = bound n (ground arith)

module _ (n m : ℕ) (pos_m : 0 < m) (fits : suc n * m ≤ 9223372036854775808) where
  negative_word :
      n < 9223372036854775808
      → u64 ((18446744073709551615 - n) * m) ≡ 18446744073709551616 - suc n * m
  negative_word h =
      let small : 18446744073709551615 - n + suc n ≡ 18446744073709551616 = omega arith in
      let all : (18446744073709551615 - n) * m + suc n * m ≡ 18446744073709551616 * m =
        sym (add-mul (18446744073709551615 - n) (suc n) m) ∙ ap (λ (t : ℕ). t * m) small in
      omega (arith, all)

suc_product : (n m : ℕ) → 0 < m → n * m < suc n * m
suc_product n m h = omega (arith, suc-mul n m)

pos-times : (n m : ℕ) → pos n *ℤ pos m ≡ pos (n * m)
unfolding ◌*ℤ◌
pos-times n m = grind arith

negsuc-times : (n m : ℕ) → 0 < m → negsuc n *ℤ pos m ≡ negsuc (suc n * m - 1)
unfolding ◌*ℤ◌
negsuc-times n m h = grind (arith, suc_product n m h)

to_int64-negsuc :
    (v : ℕ) → 0 < v → v ≤ 9223372036854775808 → to_int64 (18446744073709551616 - v) ≡ negsuc (v - 1)
unfolding to_int64
to_int64-negsuc v h k = ground arith

to_int64-pos : (v : ℕ) → v < 9223372036854775808 → to_int64 (u64 v) ≡ pos v
unfolding to_int64
to_int64-pos v k = ground arith

-- What is shifted into the sign and out of the word would be more than the bit length allows.
module _ (right bound : ℕ) (room : bound ≤ 9223372036854775808) where
  pub word_left :
      (a : ℤ)
      → is_int64 a ≡ true
      → suc (bits_of a) * 2 ^ right ≤ bound
      → (shift_word_left a right ≡ a *ℤ pos (2 ^ right))
        × (bits_of (shift_word_left a right) < bound)
  unfolding is_int64 shift_word_left to_uint64
  word_left (pos n) h le =
      let p = two-pow_pos right in
      let less = suc_product n (2 ^ right) p in
      let is = to_int64-pos (n * 2 ^ right) (omega (arith, less)) in
      (is ∙ sym (pos-times n (2 ^ right)), rw is (omega (arith, less)))
  word_left (negsuc n) h le =
      let p = two-pow_pos right in
      let less = suc_product n (2 ^ right) p in
      let is : shift_word_left (negsuc n) right ≡ negsuc (suc n * 2 ^ right - 1) =
        ap to_int64 (negative_word n (2 ^ right) p (omega arith) (ground arith))
        ∙ to_int64-negsuc (suc n * 2 ^ right) (omega (arith, less)) (omega arith) in
      (is ∙ sym (negsuc-times n (2 ^ right) p), rw is (omega (arith, less)))

pub bits-is_smi : (z : ℤ) → bits_of z < 2 ^ 61 → is_smi z ≡ true
unfolding is_smi
bits-is_smi (pos n) h = ground arith
bits-is_smi (negsuc n) h = ground arith

pub bits-is_int64 : (z : ℤ) → bits_of z < 2 ^ 63 → is_int64 z ≡ true
unfolding is_int64
bits-is_int64 (pos n) h = ground arith
bits-is_int64 (negsuc n) h = ground arith

module _ (a : ℤ) (right : ℕ) where
  pub room_left :
      (most : ℕ)
      → is_int64 a ≡ true
      → bit_length a + right ≤ most
      → suc (bits_of a) * 2 ^ right ≤ 2 ^ most
  room_left most h le =
      let below = bit_length-bound a h in
      let scaled : suc (bits_of a) * 2 ^ right ≤ 2 ^ bit_length a * 2 ^ right =
        mul-le-mul_right (2 ^ right) (omega arith) in
      let pows : 2 ^ (bit_length a + right) ≤ 2 ^ most =
        pow-le-pow_right {n = 2} (omega arith) {i = bit_length a + right} {j = most} le in
      omega (arith, scaled, pows, two-pow_add (bit_length a) right)
