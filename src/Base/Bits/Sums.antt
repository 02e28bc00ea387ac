-- ===== src/Base/Bits/Sums.antt =====
-- The bit operations as sums: what two numbers have in common is counted twice.
use Prim.Native.Nat.{min, max, differ}
use primordialsoup.Base.{
  ℕ, zero, suc, ◌+◌, ◌-◌, ◌*◌, ◌/◌, ◌%◌, ◌^◌, ◌≤◌, ◌<◌, bit_and, bit_or, bit_xor, ◌≡◌, refl, arith,
}
use primordialsoup.Base.Bits.Step.{bit_and_step, bit_or_step, bit_xor_step}
use primordialsoup.Base.Bits.Split.{
  bit_and-complement, bit_and_comm, bit_and-split, bit_or-split, bit_xor-split,
}

digit_sums :
    (r s : ℕ) → r ≤ 1 → s ≤ 1 → (max r s + min r s ≡ r + s) × (differ r s + 2 * min r s ≡ r + s)
digit_sums zero zero h k = (omega arith, refl)
digit_sums zero (suc zero) h k = (omega arith, refl)
digit_sums (suc zero) zero h k = (omega arith, refl)
digit_sums (suc zero) (suc zero) h k = (omega arith, refl)
digit_sums (suc (suc r)) s h k = absurd (omega arith)
digit_sums r (suc (suc s)) h k = absurd (omega arith)

sums :
    (n a b : ℕ)
    → a ≤ n
    → b ≤ n
    → (bit_or a b + bit_and a b ≡ a + b) × (bit_xor a b + 2 * bit_and a b ≡ a + b)
sums zero zero zero h k = (refl, refl)
sums zero (suc a) b h k = absurd (omega arith)
sums zero a (suc b) h k = absurd (omega arith)
sums (suc n) a b h k =
    let (ors, xors) = sums n (a / 2) (b / 2) (omega arith) (omega arith) in
    let (or_digit, xor_digit) = digit_sums (a % 2) (b % 2) (omega arith) (omega arith) in
    (
      omega (arith, bit_or_step a b, bit_and_step a b, ors, or_digit),
      omega (arith, bit_xor_step a b, bit_and_step a b, xors, xor_digit),
    )

pub bit_or-sum : (a b : ℕ) → bit_or a b + bit_and a b ≡ a + b
bit_or-sum a b = (sums (a + b) a b (omega arith) (omega arith)).0

pub bit_xor-sum : (a b : ℕ) → bit_xor a b + 2 * bit_and a b ≡ a + b
bit_xor-sum a b = (sums (a + b) a b (omega arith) (omega arith)).1

-- The complement of both operands.
pub complement-bit_and :
    (k a b : ℕ)
    → a < 2 ^ k
    → b < 2 ^ k
    → bit_and (2 ^ k - 1 - a) (2 ^ k - 1 - b) + bit_or a b ≡ 2 ^ k - 1
complement-bit_and k a b ha hb = omega (
  arith,
  bit_and-complement k (2 ^ k - 1 - a) b (omega arith) hb,
  bit_and_comm (2 ^ k - 1 - a) b,
  bit_and-complement k b a hb ha,
  bit_and_comm a b,
  bit_or-sum a b,
)

-- The operations on numbers that are even, and on one that is odd and one that is not.
pub doubled-bit_and :
    (a b r s : ℕ) → r < 2 → s < 2 → bit_and (2 * a + r) (2 * b + s) ≡ 2 * bit_and a b + bit_and r s
doubled-bit_and a b r s h k = bit_and-split 1 a b r s h k

pub doubled-bit_or :
    (a b r s : ℕ) → r < 2 → s < 2 → bit_or (2 * a + r) (2 * b + s) ≡ 2 * bit_or a b + bit_or r s
doubled-bit_or a b r s h k = bit_or-split 1 a b r s h k

pub doubled-bit_xor :
    (a b r s : ℕ) → r < 2 → s < 2 → bit_xor (2 * a + r) (2 * b + s) ≡ 2 * bit_xor a b + bit_xor r s
doubled-bit_xor a b r s h k = bit_xor-split 1 a b r s h k
