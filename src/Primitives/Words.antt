-- ===== src/Primitives/Words.antt =====
-- The bit operations of C++ on 64-bit words, tagged and not, are those of the integers.
use primordialsoup.Base.{
  ℕ, suc, ◌+◌, ◌-◌, ◌*◌, ◌^◌, ◌<◌, ◌≡◌, refl, ap, ap₂, ◌∙◌, true, ltb, bit_and, bit_or, bit_xor,
  arith,
}
use primordialsoup.Base.Int.{ℤ, pos, negsuc, ◌+ℤ◌}
use primordialsoup.Base.Bits.Split.{
  bit_and_not, bit_and-complement, bit_and-lt, bit_or-lt, bit_xor-lt, bit_and_comm, bit_and-le,
}
use primordialsoup.Base.Bits.Sums.{
  bit_or-sum, bit_xor-sum, complement-bit_and, doubled-bit_and, doubled-bit_or, doubled-bit_xor,
}
use primordialsoup.Large.Number.{is_int64, to_uint64, to_int64}
use primordialsoup.Large.Bitwise.Twos.{and_ℤ, or_ℤ, xor_ℤ}
use primordialsoup.Primitives.{tag}

abbrev pub Op : Type 0
Op = ℕ → ℕ → ℕ

-- On the patterns of two 64-bit integers the operation is that of the integers.
abbrev pub OnWords : Op → (ℤ → ℤ → ℤ) → Type 0
OnWords op f =
    (a b : ℤ)
    → is_int64 a ≡ true
    → is_int64 b ≡ true
    → (to_int64 (op (to_uint64 a) (to_uint64 b)) ≡ f a b) × (is_int64 (f a b) ≡ true)

below : (a : ℕ) → ltb a 9223372036854775808 ≡ true → a < 2 ^ 63
below a h = ground arith

to_pos : (w n : ℕ) → w ≡ n → n < 2 ^ 63 → (to_int64 w ≡ pos n) × (is_int64 (pos n) ≡ true)
unfolding to_int64 is_int64
to_pos w n e h = (ground arith, ground arith)

to_negsuc :
    (w n : ℕ)
    → w + n ≡ 18446744073709551615
    → n < 2 ^ 63
    → (to_int64 w ≡ negsuc n) × (is_int64 (negsuc n) ≡ true)
unfolding to_int64 is_int64
to_negsuc w n e h = (ground arith, ground arith)

-- The patterns of negative numbers are complements.
module _ (a b : ℕ) (h : a < 2 ^ 63) (k : b < 2 ^ 63) where
  one_complement : bit_and a (18446744073709551615 - b) + bit_and a b ≡ a
  one_complement = bit_and-complement 64 a b (omega arith) (omega arith)

  other_complement : bit_and (18446744073709551615 - a) b + bit_and a b ≡ b
  other_complement = omega (
    arith,
    bit_and-complement 64 b a (omega arith) (omega arith),
    bit_and_comm (18446744073709551615 - a) b,
    bit_and_comm a b,
  )

  both_complements :
      bit_and (18446744073709551615 - a) (18446744073709551615 - b) + bit_or a b
      ≡ 18446744073709551615
  both_complements = complement-bit_and 64 a b (omega arith) (omega arith)

pub and-OnWords : OnWords bit_and and_ℤ
unfolding and_ℤ to_uint64 is_int64
and-OnWords (pos a) (pos b) h k = to_pos _ _ refl (bit_and-lt 63 a b (below a h) (below b k))
and-OnWords (pos a) (negsuc b) h k =
    let a63 = below a h in
    to_pos _ _ (omega (arith, one_complement a b a63 (below b k))) (omega arith)
and-OnWords (negsuc a) (pos b) h k =
    let b63 = below b k in
    to_pos _ _ (omega (arith, other_complement a b (below a h) b63, bit_and_comm a b)) (omega arith)
and-OnWords (negsuc a) (negsuc b) h k =
    let a63 = below a h in
    let b63 = below b k in to_negsuc _ _ (both_complements a b a63 b63) (bit_or-lt 63 a b a63 b63)

pub or-OnWords : OnWords bit_or or_ℤ
unfolding or_ℤ to_uint64 is_int64
or-OnWords (pos a) (pos b) h k = to_pos _ _ refl (bit_or-lt 63 a b (below a h) (below b k))
or-OnWords (pos a) (negsuc b) h k =
    let a63 = below a h in
    let b63 = below b k in
    to_negsuc _ _
      (omega (
        arith,
        bit_or-sum a (18446744073709551615 - b),
        one_complement a b a63 b63,
        bit_and_comm a b,
        bit_and-le b b a (omega arith),
      ))
      (omega arith)
or-OnWords (negsuc a) (pos b) h k =
    let a63 = below a h in
    let b63 = below b k in
    to_negsuc _ _
      (omega (
        arith,
        bit_or-sum (18446744073709551615 - a) b,
        other_complement a b a63 b63,
        bit_and-le a a b (omega arith),
      ))
      (omega arith)
or-OnWords (negsuc a) (negsuc b) h k =
    let a63 = below a h in
    let b63 = below b k in
    to_negsuc _ _
      (omega (
        arith,
        bit_or-sum (18446744073709551615 - a) (18446744073709551615 - b),
        both_complements a b a63 b63,
        bit_or-sum a b,
      ))
      (bit_and-lt 63 a b a63 b63)

pub xor-OnWords : OnWords bit_xor xor_ℤ
unfolding xor_ℤ to_uint64 is_int64
xor-OnWords (pos a) (pos b) h k = to_pos _ _ refl (bit_xor-lt 63 a b (below a h) (below b k))
xor-OnWords (pos a) (negsuc b) h k =
    let a63 = below a h in
    let b63 = below b k in
    to_negsuc _ _
      (omega (
        arith,
        bit_xor-sum a (18446744073709551615 - b),
        one_complement a b a63 b63,
        bit_xor-sum a b,
      ))
      (bit_xor-lt 63 a b a63 b63)
xor-OnWords (negsuc a) (pos b) h k =
    let a63 = below a h in
    let b63 = below b k in
    to_negsuc _ _
      (omega (
        arith,
        bit_xor-sum (18446744073709551615 - a) b,
        other_complement a b a63 b63,
        bit_xor-sum a b,
      ))
      (bit_xor-lt 63 a b a63 b63)
xor-OnWords (negsuc a) (negsuc b) h k =
    let a63 = below a h in
    let b63 = below b k in
    to_pos _ _
      (omega (
        arith,
        bit_xor-sum (18446744073709551615 - a) (18446744073709551615 - b),
        both_complements a b a63 b63,
        bit_or-sum a b,
        bit_xor-sum a b,
      ))
      (bit_xor-lt 63 a b a63 b63)

-- On tagged words it is the tagged word of the result.
abbrev pub OnTags : (ℤ → ℤ → ℤ) → Type 0
OnTags f = (a b : ℤ) → f (tag a) (tag b) ≡ tag (f a b)

tag-pos : (a : ℕ) → tag (pos a) ≡ pos (a + a)
unfolding ◌+ℤ◌
tag-pos a = ground arith

tag-negsuc : (a : ℕ) → tag (negsuc a) ≡ negsuc (suc (a + a))
unfolding ◌+ℤ◌
tag-negsuc a = ground arith

module _ (op : Op)
    (split : (a b r s : ℕ) → r < 2 → s < 2 → op (2 * a + r) (2 * b + s) ≡ 2 * op a b + op r s) where
  at :
      (a b r s x y : ℕ)
      → x ≡ 2 * a + r
      → y ≡ 2 * b + s
      → r < 2
      → s < 2
      → op x y ≡ 2 * op a b + op r s
  at a b r s x y e f h k = ap₂ op e f ∙ split a b r s h k

  even_even : (a b : ℕ) → op (a + a) (b + b) ≡ 2 * op a b + op 0 0
  even_even a b = at a b 0 0 (a + a) (b + b) (omega arith) (omega arith) (omega arith) (omega arith)

  even_odd : (a b : ℕ) → op (a + a) (suc (b + b)) ≡ 2 * op a b + op 0 1
  even_odd a b =
      at a b 0 1 (a + a) (suc (b + b)) (omega arith) (omega arith) (omega arith) (omega arith)

  odd_even : (a b : ℕ) → op (suc (a + a)) (b + b) ≡ 2 * op a b + op 1 0
  odd_even a b =
      at a b 1 0 (suc (a + a)) (b + b) (omega arith) (omega arith) (omega arith) (omega arith)

  odd_odd : (a b : ℕ) → op (suc (a + a)) (suc (b + b)) ≡ 2 * op a b + op 1 1
  odd_odd a b =
      at a b 1 1 (suc (a + a)) (suc (b + b)) (omega arith) (omega arith) (omega arith) (omega arith)

pub and-OnTags : OnTags and_ℤ
unfolding and_ℤ
and-OnTags (pos a) (pos b) =
    rw (tag-pos a, tag-pos b, tag-pos (bit_and a b))
      (ap pos (omega (arith, even_even bit_and doubled-bit_and a b)))
and-OnTags (pos a) (negsuc b) =
    rw (tag-pos a, tag-negsuc b, tag-pos (bit_and_not a b))
      (ap pos (omega (arith, even_odd bit_and doubled-bit_and a b)))
and-OnTags (negsuc a) (pos b) =
    rw (tag-negsuc a, tag-pos b, tag-pos (bit_and_not b a))
      (ap pos (omega (arith, even_odd bit_and doubled-bit_and b a)))
and-OnTags (negsuc a) (negsuc b) =
    rw (tag-negsuc a, tag-negsuc b, tag-negsuc (bit_or a b))
      (ap negsuc (omega (arith, odd_odd bit_or doubled-bit_or a b)))

pub or-OnTags : OnTags or_ℤ
unfolding or_ℤ
or-OnTags (pos a) (pos b) =
    rw (tag-pos a, tag-pos b, tag-pos (bit_or a b))
      (ap pos (omega (arith, even_even bit_or doubled-bit_or a b)))
or-OnTags (pos a) (negsuc b) =
    rw (tag-pos a, tag-negsuc b, tag-negsuc (bit_and_not b a))
      (ap negsuc
        (omega (arith, odd_even bit_and doubled-bit_and b a, bit_and-le b b a (omega arith))))
or-OnTags (negsuc a) (pos b) =
    rw (tag-negsuc a, tag-pos b, tag-negsuc (bit_and_not a b))
      (ap negsuc
        (omega (arith, odd_even bit_and doubled-bit_and a b, bit_and-le a a b (omega arith))))
or-OnTags (negsuc a) (negsuc b) =
    rw (tag-negsuc a, tag-negsuc b, tag-negsuc (bit_and a b))
      (ap negsuc (omega (arith, odd_odd bit_and doubled-bit_and a b)))

pub xor-OnTags : OnTags xor_ℤ
unfolding xor_ℤ
xor-OnTags (pos a) (pos b) =
    rw (tag-pos a, tag-pos b, tag-pos (bit_xor a b))
      (ap pos (omega (arith, even_even bit_xor doubled-bit_xor a b)))
xor-OnTags (pos a) (negsuc b) =
    rw (tag-pos a, tag-negsuc b, tag-negsuc (bit_xor a b))
      (ap negsuc (omega (arith, even_odd bit_xor doubled-bit_xor a b)))
xor-OnTags (negsuc a) (pos b) =
    rw (tag-negsuc a, tag-pos b, tag-negsuc (bit_xor a b))
      (ap negsuc (omega (arith, odd_even bit_xor doubled-bit_xor a b)))
xor-OnTags (negsuc a) (negsuc b) =
    rw (tag-negsuc a, tag-negsuc b, tag-pos (bit_xor a b))
      (ap pos (omega (arith, odd_odd bit_xor doubled-bit_xor a b)))
