-- ===== src/Math/Overflow.antt =====
-- The tests of `vm/math.h` are sound, and those of the sum and the difference exact.
use native.Mathlib.Nat.{pow-suc, mul-lt-mul_of_pos_right, mul-le-mul_left, pow-le-pow_right}
use primordialsoup.Base.{
  ℕ, zero, suc, ◌+◌, ◌*◌, ◌/◌, ◌^◌, ◌≤◌, ◌<◌, ◌≡◌, sym, ap, ◌∙◌, true, none, some, ltb,
  if◌then◌else◌, arith, ltb→lt, Bool-cases, inl, inr,
}
use primordialsoup.Base.Int.{ℤ, pos, negsuc, ◌+ℤ◌, ◌-ℤ◌, ◌*ℤ◌, pos_part, neg_part}
use primordialsoup.Base.Powers.{two-pow_add}
use primordialsoup.Large.Number.{is_int64}
use primordialsoup.Math.{
  OverflowChecks, add_has_overflow, subtract_has_overflow, highest_bit_of, highest_bit,
  multiply_has_overflow,
}

some_inj : (a b : ℤ) → some a ≡ some b → a ≡ b
some_inj a b h = cc

none-some : (a : ℤ) → none ≡ some a → ⊥
none-some a h = cc

-- For two `int64_t` the test of the sum holds exactly if the sum is none.
pub add_has_overflow-is :
    (a b : ℤ)
    → is_int64 a ≡ true
    → is_int64 b ≡ true
    → add_has_overflow a b ≡ (if is_int64 (a +ℤ b) then some (a +ℤ b) else none)
unfolding add_has_overflow is_int64 ◌+ℤ◌ ◌-ℤ◌
add_has_overflow-is (pos a) (pos b) h k = ground arith
add_has_overflow-is (pos a) (negsuc b) h k = ground arith
add_has_overflow-is (negsuc a) (pos b) h k = ground arith
add_has_overflow-is (negsuc a) (negsuc b) h k = ground arith

pub subtract_has_overflow-is :
    (a b : ℤ)
    → is_int64 a ≡ true
    → is_int64 b ≡ true
    → subtract_has_overflow a b ≡ (if is_int64 (a -ℤ b) then some (a -ℤ b) else none)
unfolding subtract_has_overflow is_int64 ◌+ℤ◌ ◌-ℤ◌
subtract_has_overflow-is (pos a) (pos b) h k = ground arith
subtract_has_overflow-is (pos a) (negsuc b) h k = ground arith
subtract_has_overflow-is (negsuc a) (pos b) h k = ground arith
subtract_has_overflow-is (negsuc a) (negsuc b) h k = ground arith

-- The place of the highest bit bounds a number that has no more bits than there are rounds.
pub below_power : (rounds n : ℕ) → n < 2 ^ rounds → n < 2 ^ suc (highest_bit_of rounds n)
unfolding highest_bit_of
below_power zero n h = grind (arith, pow-suc 2 0)
below_power (suc rounds) n h = elim (Bool-cases (ltb n 2)) [
  | inl e ↦ rw e (small n e)
  | inr e ↦
      let ih = below_power rounds (n / 2) (omega (arith, pow-suc 2 rounds)) in
      rw e (omega (arith, ih, pow-suc 2 (suc (highest_bit_of rounds (n / 2)))))
]
  where
    small : (k : ℕ) → ltb k 2 ≡ true → k < 2 ^ suc 0
    small k e = ground arith

product_below :
    (m n a b : ℕ) → m < 2 ^ suc a → n < 2 ^ suc b → a + b < 62 → m * n < 9223372036854775808
product_below m n a b h k lt =
    let le : 2 ^ (suc a + suc b) ≤ 2 ^ 63 =
      pow-le-pow_right {n = 2} (omega arith) {i = suc a + suc b} {j = 63} (omega arith) in
    omega (arith, strict m n (2 ^ suc a) (2 ^ suc b) h k, two-pow_add (suc a) (suc b), le)
  where
    strict : (m n p q : ℕ) → m < p → n < q → m * n < p * q
    strict m n p q h k =
        let le : m * n ≤ m * q = mul-le-mul_left m (omega arith) in
        let lt : m * q < p * q = mul-lt-mul_of_pos_right h (omega arith) in omega arith

small_product :
    (a b : ℤ)
    → (pos_part a + neg_part a) * (pos_part b + neg_part b) < 9223372036854775808
    → is_int64 (a *ℤ b) ≡ true
unfolding is_int64 ◌*ℤ◌
small_product (pos a) (pos b) h = grind arith
small_product (pos a) (negsuc b) h = grind arith
small_product (negsuc a) (pos b) h = grind arith
small_product (negsuc a) (negsuc b) h = grind arith

absolute_below : (a : ℤ) → is_int64 a ≡ true → pos_part a + neg_part a < 2 ^ 64
unfolding is_int64
absolute_below (pos a) h = ground arith
absolute_below (negsuc a) h = ground arith

-- The fallback for the product never passes one that does not fit.
multiply_has_overflow_exact :
    (a b r : ℤ)
    → is_int64 a ≡ true
    → is_int64 b ≡ true
    → multiply_has_overflow a b ≡ some r
    → (r ≡ a *ℤ b) × (is_int64 r ≡ true)
unfolding multiply_has_overflow highest_bit
multiply_has_overflow_exact a b r h k run =
    elim (Bool-cases (ltb (highest_bit a + highest_bit b) 62)) [
      | inl e ↦
          let is = some_inj (a *ℤ b) r (rw e at run) in
          let fits = small_product a b (
            product_below _ _ (highest_bit a) (highest_bit b)
              (below_power 64 _ (absolute_below a h)) (below_power 64 _ (absolute_below b k))
              (ltb→lt _ _ e)) in
          (sym is, ap is_int64 (sym is) ∙ fits)
      | inr e ↦ absurd (none-some r (rw e at run))
    ]

-- With an exact test the stored result is the integer, and fits.
exact_of_test :
    (z r : ℤ) → (if is_int64 z then some z else none) ≡ some r → (r ≡ z) × (is_int64 r ≡ true)
exact_of_test z r run = elim (Bool-cases (is_int64 z)) [
  | inl e ↦ let is = some_inj z r (rw e at run) in (sym is, ap is_int64 (sym is) ∙ e)
  | inr e ↦ absurd (none-some r (rw e at run))
]

-- The tests of the header.
pub fallback : OverflowChecks
fallback = record {
  add = add_has_overflow;
  subtract = subtract_has_overflow;
  multiply = multiply_has_overflow;
  add_exact = λ a b r h k run. exact_of_test (a +ℤ b) r (sym (add_has_overflow-is a b h k) ∙ run);
  subtract_exact =
      λ a b r h k run. exact_of_test (a -ℤ b) r (sym (subtract_has_overflow-is a b h k) ∙ run);
  multiply_exact = multiply_has_overflow_exact;
}
