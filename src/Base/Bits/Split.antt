-- ===== src/Base/Bits/Split.antt =====
-- A bit operation works on the low `k` digits and on those above them apart.
use Prim.Native.Nat.{min, max, differ, bit_and-bitwise}
use native.Mathlib.Nat.{pow-suc}
use primordialsoup.Base.{
  ℕ, zero, suc, ◌+◌, ◌-◌, ◌*◌, ◌/◌, ◌%◌, ◌^◌, ◌≤◌, ◌<◌, bit_and, bit_or, bit_xor, ◌≡◌, refl, ap,
  arith,
}
use primordialsoup.Base.Bits.Step.{
  bit_or_step, bit_and_step, bit_xor_step, differ_bits-le, differ_bits_comm,
}

pub two-pow_suc : (k : ℕ) → 2 ^ suc k ≡ 2 * 2 ^ k
two-pow_suc k = omega (arith, pow-suc 2 k)

pub two-pow_suc-mul : (k q : ℕ) → 2 ^ suc k * q ≡ 2 * (2 ^ k * q)
two-pow_suc-mul k q = omega (arith, ap (λ (t : ℕ). t * q) (pow-suc 2 k))

one-mul-add : (p : ℕ) → 2 ^ 0 * p + 0 ≡ p
one-mul-add p = omega arith

half : (k p a : ℕ) → (2 ^ suc k * p + a) / 2 ≡ 2 ^ k * p + a / 2
half k p a = omega (arith, two-pow_suc-mul k p)

low : (k p a : ℕ) → (2 ^ suc k * p + a) % 2 ≡ a % 2
low k p a = omega (arith, two-pow_suc-mul k p)

module _ (f g : ℕ → ℕ → ℕ) (step : (a b : ℕ) → f a b ≡ f (a / 2) (b / 2) * 2 + g (a % 2) (b % 2))
    (bit : (a b : ℕ) → g (a % 2) (b % 2) ≤ 1) (none : f 0 0 ≡ 0) where
  pub op-lt : (k a b : ℕ) → a < 2 ^ k → b < 2 ^ k → f a b < 2 ^ k
  op-lt zero zero zero ha hb = omega (arith, none)
  op-lt zero zero (suc b) ha hb = absurd (omega arith)
  op-lt zero (suc a) b ha hb = absurd (omega arith)
  op-lt (suc k) a b ha hb =
      let two = two-pow_suc k in
      omega (arith, step a b, bit a b, op-lt k (a / 2) (b / 2) (omega arith) (omega arith))

  pub op-split :
      (k p q a b : ℕ)
      → a < 2 ^ k
      → b < 2 ^ k
      → f (2 ^ k * p + a) (2 ^ k * q + b) ≡ 2 ^ k * f p q + f a b
  op-split zero p q zero zero ha hb = rw (one-mul-add p, one-mul-add q) (omega (arith, none))
  op-split zero p q zero (suc b) ha hb = absurd (omega arith)
  op-split zero p q (suc a) b ha hb = absurd (omega arith)
  op-split (suc k) p q a b ha hb =
      rw
        (step (2 ^ suc k * p + a) (2 ^ suc k * q + b), half k p a, half k q b, low k p a, low k q b)
        (omega (
          arith,
          op-split k p q (a / 2) (b / 2) (omega (arith, two-pow_suc k))
              (omega (arith, two-pow_suc k)),
          step a b,
          two-pow_suc-mul k (f p q),
        ))

module _ (f g : ℕ → ℕ → ℕ) (step : (a b : ℕ) → f a b ≡ f (a / 2) (b / 2) * 2 + g (a % 2) (b % 2))
    (swap : (a b : ℕ) → g (a % 2) (b % 2) ≡ g (b % 2) (a % 2)) (none : f 0 0 ≡ 0) where
  op_comm : (n a b : ℕ) → a ≤ n → b ≤ n → f a b ≡ f b a
  op_comm zero zero zero ha hb = refl
  op_comm zero zero (suc b) ha hb = absurd (omega arith)
  op_comm zero (suc a) b ha hb = absurd (omega arith)
  op_comm (suc n) a b ha hb =
      omega
        (arith, step a b, step b a, swap a b, op_comm n (a / 2) (b / 2) (omega arith) (omega arith))

bits_or-le : (a b : ℕ) → max (a % 2) (b % 2) ≤ 1
bits_or-le a b = omega arith

bits_and-le : (a b : ℕ) → min (a % 2) (b % 2) ≤ 1
bits_and-le a b = omega arith

pub zero-bit_and : (b : ℕ) → bit_and 0 b ≡ 0
zero-bit_and b = bit_and-bitwise 0 b

pub bit_or-lt : (k a b : ℕ) → a < 2 ^ k → b < 2 ^ k → bit_or a b < 2 ^ k
bit_or-lt = op-lt bit_or max bit_or_step bits_or-le refl

pub bit_and-lt : (k a b : ℕ) → a < 2 ^ k → b < 2 ^ k → bit_and a b < 2 ^ k
bit_and-lt = op-lt bit_and min bit_and_step bits_and-le refl

pub bit_xor-lt : (k a b : ℕ) → a < 2 ^ k → b < 2 ^ k → bit_xor a b < 2 ^ k
bit_xor-lt = op-lt bit_xor differ bit_xor_step differ_bits-le refl

module _ (k p q a b : ℕ) (ha : a < 2 ^ k) (hb : b < 2 ^ k) where
  pub bit_or-split : bit_or (2 ^ k * p + a) (2 ^ k * q + b) ≡ 2 ^ k * bit_or p q + bit_or a b
  bit_or-split = op-split bit_or max bit_or_step bits_or-le refl k p q a b ha hb

  pub bit_and-split : bit_and (2 ^ k * p + a) (2 ^ k * q + b) ≡ 2 ^ k * bit_and p q + bit_and a b
  bit_and-split = op-split bit_and min bit_and_step bits_and-le refl k p q a b ha hb

  pub bit_xor-split : bit_xor (2 ^ k * p + a) (2 ^ k * q + b) ≡ 2 ^ k * bit_xor p q + bit_xor a b
  bit_xor-split = op-split bit_xor differ bit_xor_step differ_bits-le refl k p q a b ha hb

-- `a & ~b`, over as many digits as `a` has.
abbrev pub bit_and_not : ℕ → ℕ → ℕ
bit_and_not a b = a - bit_and a b

pub bit_and-le : (n a b : ℕ) → a ≤ n → bit_and a b ≤ a
bit_and-le n zero b h = omega (arith, zero-bit_and b)
bit_and-le zero (suc a) b h = absurd (omega arith)
bit_and-le (suc n) (suc a) b h =
    omega (arith, bit_and_step (suc a) b, bit_and-le n (suc a / 2) (b / 2) (omega arith))

complement_half : (k b : ℕ) → b < 2 ^ suc k → (2 ^ suc k - 1 - b) / 2 ≡ 2 ^ k - 1 - b / 2
complement_half k b h = omega (arith, two-pow_suc k)

complement_low : (k b : ℕ) → b < 2 ^ suc k → (2 ^ suc k - 1 - b) % 2 ≡ 1 - b % 2
complement_low k b h = omega (arith, two-pow_suc k)

-- Within `k` digits the complement of `b` is `2 ^ k - 1 - b`.
pub bit_and-complement :
    (k a b : ℕ) → a < 2 ^ k → b < 2 ^ k → bit_and a (2 ^ k - 1 - b) + bit_and a b ≡ a
bit_and-complement zero zero b ha hb = omega (arith, zero-bit_and b, zero-bit_and (2 ^ 0 - 1 - b))
bit_and-complement zero (suc a) b ha hb = absurd (omega arith)
bit_and-complement (suc k) a b ha hb =
    rw (bit_and_step a (2 ^ suc k - 1 - b), complement_half k b hb, complement_low k b hb)
      (omega (
        arith,
        bit_and_step a b,
        two-pow_suc k,
        bit_and-complement k (a / 2) (b / 2) (omega (arith, two-pow_suc k))
            (omega (arith, two-pow_suc k)),
      ))

-- The complement of a digit, `~b` on a `digit_t`.
pub bit_and_not-digit :
    (a b : ℕ) → a < 4294967296 → b < 4294967296 → bit_and a (4294967295 - b) ≡ bit_and_not a b
bit_and_not-digit a b ha hb = omega (arith, bit_and-complement 32 a b ha hb)

pub bit_and_not-split :
    (p q a b : ℕ)
    → a < 4294967296
    → b < 4294967296
    → bit_and_not (4294967296 * p + a) (4294967296 * q + b)
      ≡ 4294967296 * bit_and_not p q + bit_and_not a b
bit_and_not-split p q a b ha hb = omega (
  arith,
  bit_and-split 32 p q a b ha hb,
  bit_and-le p p q (omega arith),
  bit_and-le a a b (omega arith),
)

swap_or : (a b : ℕ) → max (a % 2) (b % 2) ≡ max (b % 2) (a % 2)
swap_or a b = omega arith

swap_and : (a b : ℕ) → min (a % 2) (b % 2) ≡ min (b % 2) (a % 2)
swap_and a b = omega arith

pub bit_or_comm : (a b : ℕ) → bit_or a b ≡ bit_or b a
bit_or_comm a b =
    op_comm bit_or max bit_or_step swap_or refl (a + b) a b (omega arith) (omega arith)

pub bit_and_comm : (a b : ℕ) → bit_and a b ≡ bit_and b a
bit_and_comm a b =
    op_comm bit_and min bit_and_step swap_and refl (a + b) a b (omega arith) (omega arith)

pub bit_xor_comm : (a b : ℕ) → bit_xor a b ≡ bit_xor b a
bit_xor_comm a b =
    op_comm bit_xor differ bit_xor_step differ_bits_comm refl (a + b) a b (omega arith)
      (omega arith)
