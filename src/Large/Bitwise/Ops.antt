-- ===== src/Large/Bitwise/Ops.antt =====
-- Each branch of `And`, `Or` and `Xor` works digit by digit.
use Prim.Native.Nat.{bit_or-bitwise}
use primordialsoup.Base.{ℕ, ◌+◌, ◌*◌, ◌<◌, ◌≡◌, refl, sym, ◌∙◌, bit_and, bit_or, bit_xor, arith}
use primordialsoup.Base.Bits.Split.{
  bit_and_not, bit_and-split, bit_or-split, bit_xor-split, bit_and_not-split, bit_and-lt, bit_or-lt,
  bit_xor-lt, zero-bit_and, bit_and_comm, bit_and_not-digit,
}
use primordialsoup.Large.Bitwise.{complement}
use primordialsoup.Large.Bitwise.Loop.{IsDigitwise}

swap : (p a : ℕ) → a + 4294967296 * p ≡ 4294967296 * p + a
swap p a = omega arith

module _ (p q a b : ℕ) (ha : a < 4294967296) (hb : b < 4294967296) where
  and-parts :
      bit_and (a + 4294967296 * p) (b + 4294967296 * q) ≡ bit_and a b + 4294967296 * bit_and p q
  and-parts = rw (swap p a, swap q b) (omega (arith, bit_and-split 32 p q a b ha hb))

  or-parts : bit_or (a + 4294967296 * p) (b + 4294967296 * q) ≡ bit_or a b + 4294967296 * bit_or p q
  or-parts = rw (swap p a, swap q b) (omega (arith, bit_or-split 32 p q a b ha hb))

  xor-parts :
      bit_xor (a + 4294967296 * p) (b + 4294967296 * q) ≡ bit_xor a b + 4294967296 * bit_xor p q
  xor-parts = rw (swap p a, swap q b) (omega (arith, bit_xor-split 32 p q a b ha hb))

  and_not-parts :
      bit_and_not (a + 4294967296 * p) (b + 4294967296 * q)
      ≡ bit_and_not a b + 4294967296 * bit_and_not p q
  and_not-parts = rw (swap p a, swap q b) (bit_and_not-split p q a b ha hb ∙ omega arith)

pub and-zero : (a : ℕ) → bit_and a 0 ≡ 0
and-zero a = bit_and_comm a 0 ∙ zero-bit_and a

and_not-zero : (a : ℕ) → a ≡ bit_and_not a 0
and_not-zero a = omega (arith, and-zero a)

zero-and_not : (a : ℕ) → 0 ≡ bit_and_not 0 a
zero-and_not a = omega (arith, zero-bit_and a)

and_not-lt : (a b : ℕ) → a < 4294967296 → bit_and_not a b < 4294967296
and_not-lt a b h = omega arith

pub and_digits : IsDigitwise bit_and (λ s l. 0) bit_and
and_digits = record {
  split = and-parts;
  digit = λ a b ha hb. refl;
  tail = λ b hb. sym (zero-bit_and b);
  small = bit_and-lt 32;
  none = refl;
}

pub and_both : IsDigitwise bit_and bit_and bit_and
and_both = record {
  split = and-parts;
  digit = λ a b ha hb. refl;
  tail = λ b hb. refl;
  small = bit_and-lt 32;
  none = refl;
}

pub or_tail : IsDigitwise bit_or (λ s l. bit_or 0 l) bit_or
or_tail = record {
  split = or-parts;
  digit = λ a b ha hb. refl;
  tail = λ b hb. refl;
  small = bit_or-lt 32;
  none = refl;
}

pub or_digits : IsDigitwise bit_or (λ s l. l) bit_or
or_digits = record {
  split = or-parts;
  digit = λ a b ha hb. refl;
  tail = λ b hb. sym (bit_or-bitwise 0 b);
  small = bit_or-lt 32;
  none = refl;
}

pub xor_tail : IsDigitwise bit_xor (λ s l. bit_xor 0 l) bit_xor
xor_tail = record {
  split = xor-parts;
  digit = λ a b ha hb. refl;
  tail = λ b hb. refl;
  small = bit_xor-lt 32;
  none = refl;
}

pub xor_digits : IsDigitwise bit_xor bit_xor bit_xor
xor_digits = record {
  split = xor-parts;
  digit = λ a b ha hb. refl;
  tail = λ b hb. refl;
  small = bit_xor-lt 32;
  none = refl;
}

-- `s & ~l`, and 0 above: the branch of `And`.
pub short_and_not : IsDigitwise (λ s l. bit_and s (complement l)) (λ s l. 0) bit_and_not
short_and_not = record {
  split = and_not-parts;
  digit = bit_and_not-digit;
  tail = λ b hb. zero-and_not b;
  small = λ a b ha hb. and_not-lt a b ha;
  none = refl;
}

-- `~s & l`, and `l` above: the branch of `And`.
pub long_and_not : IsDigitwise (λ s l. bit_and l (complement s)) (λ s l. l) (λ s l. bit_and_not l s)
long_and_not = record {
  split = λ p q a b ha hb. and_not-parts q p b a hb ha;
  digit = λ a b ha hb. bit_and_not-digit b a hb ha;
  tail = λ b hb. and_not-zero b;
  small = λ a b ha hb. and_not-lt b a hb;
  none = refl;
}

-- `~s & l`, and `~0 & l` above: the branch of `Or`.
pub long_and_not_tail :
    IsDigitwise
      (λ s l. bit_and l (complement s))
      (λ s l. bit_and l (complement 0))
      (λ s l. bit_and_not l s)
long_and_not_tail = record {
  split = λ p q a b ha hb. and_not-parts q p b a hb ha;
  digit = λ a b ha hb. bit_and_not-digit b a hb ha;
  tail = λ b hb. bit_and_not-digit b 0 hb (omega arith);
  small = λ a b ha hb. and_not-lt b a hb;
  none = refl;
}

-- `s & ~l` throughout: the branch of `Or`.
pub short_and_not_tail :
    IsDigitwise (λ s l. bit_and s (complement l)) (λ s l. bit_and s (complement l)) bit_and_not
short_and_not_tail = record {
  split = and_not-parts;
  digit = bit_and_not-digit;
  tail = λ b hb. bit_and_not-digit 0 b (omega arith) hb;
  small = λ a b ha hb. and_not-lt a b ha;
  none = refl;
}
