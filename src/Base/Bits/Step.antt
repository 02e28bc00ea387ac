-- ===== src/Base/Bits/Step.antt =====
-- The lowest binary digit of a bit operation, and the others, which are those of the halves. The
-- native operations are defined by `digits`, on fuel.
use Prim.Native.Nat.{
  min, max, differ, digits, bitwise, bit_and-bitwise, bit_or-bitwise, bit_xor-bitwise,
}
use primordialsoup.Base.{
  ℕ, zero, suc, ◌+◌, ◌*◌, ◌/◌, ◌%◌, ◌≤◌, bit_and, bit_or, bit_xor, ◌≡◌, refl, sym, ap, ◌∙◌, arith,
}

-- `op` is the operation that is `one` on a digit, and `rest b` where the left number has run out.
module _ (rest : ℕ → ℕ) (one : ℕ → ℕ → ℕ) where
  more_fuel :
      (less more : ℕ)
      → less ≤ more
      → (a b : ℕ) → a ≤ less
      → digits rest one more a b ≡ digits rest one less a b
  more_fuel zero zero h zero b le = refl
  more_fuel zero (suc more) h zero b le = refl
  more_fuel zero more h (suc a) b le = absurd (omega arith)
  more_fuel (suc less) zero h a b le = absurd (omega arith)
  more_fuel (suc less) (suc more) h zero b le = refl
  more_fuel (suc less) (suc more) h (suc a) b le =
      ap (λ (t : ℕ). t * 2 + one (suc a % 2) (b % 2))
        (more_fuel less more (omega arith) (suc a / 2) (b / 2) (omega arith))

  halves : (a b : ℕ) → digits rest one a (suc a / 2) b ≡ digits rest one (suc a / 2) (suc a / 2) b
  halves a b = more_fuel (suc a / 2) a (omega arith) (suc a / 2) b (omega arith)

  lowest_digit :
      (op : ℕ → ℕ → ℕ)
      → ((a b : ℕ) → op a b ≡ bitwise rest one a b)
      → ((b : ℕ) → rest b ≡ rest (b / 2) * 2 + one 0 (b % 2))
      → (a b : ℕ) → op a b ≡ op (a / 2) (b / 2) * 2 + one (a % 2) (b % 2)
  lowest_digit op is out zero b =
      is 0 b ∙ out b ∙ sym (ap (λ (t : ℕ). t * 2 + one 0 (b % 2)) (is 0 (b / 2)))
  lowest_digit op is out (suc a) b =
      is (suc a) b
      ∙ ap (λ (t : ℕ). t * 2 + one (suc a % 2) (b % 2))
          (halves a (b / 2) ∙ sym (is (suc a / 2) (b / 2)))

pub bit_and_step : (a b : ℕ) → bit_and a b ≡ bit_and (a / 2) (b / 2) * 2 + min (a % 2) (b % 2)
bit_and_step = lowest_digit (λ b. 0) min bit_and (λ a b. bit_and-bitwise a b) (λ b. omega arith)

pub bit_or_step : (a b : ℕ) → bit_or a b ≡ bit_or (a / 2) (b / 2) * 2 + max (a % 2) (b % 2)
bit_or_step = lowest_digit (λ b. b) max bit_or (λ a b. bit_or-bitwise a b) (λ b. omega arith)

pub bit_xor_step : (a b : ℕ) → bit_xor a b ≡ bit_xor (a / 2) (b / 2) * 2 + differ (a % 2) (b % 2)
bit_xor_step =
    lowest_digit (λ b. b) differ bit_xor (λ a b. bit_xor-bitwise a b) (λ b. differ_zero b)
  where
    half : (b r : ℕ) → r ≤ 1 → b ≡ b / 2 * 2 + r → b ≡ b / 2 * 2 + differ 0 r
    half b zero h e = e
    half b (suc zero) h e = e
    half b (suc (suc r)) h e = absurd (omega arith)

    differ_zero : (b : ℕ) → b ≡ b / 2 * 2 + differ 0 (b % 2)
    differ_zero b = half b (b % 2) (omega arith) (omega arith)

-- What is left of a digit of `bit_xor`: it is a digit, whichever number comes first.
differ-digits : (r s : ℕ) → r ≤ 1 → s ≤ 1 → (differ r s ≤ 1) × (differ r s ≡ differ s r)
differ-digits zero zero h k = (omega arith, refl)
differ-digits zero (suc zero) h k = (omega arith, refl)
differ-digits (suc zero) zero h k = (omega arith, refl)
differ-digits (suc zero) (suc zero) h k = (omega arith, refl)
differ-digits (suc (suc r)) s h k = absurd (omega arith)
differ-digits r (suc (suc s)) h k = absurd (omega arith)

pub differ_bits-le : (a b : ℕ) → differ (a % 2) (b % 2) ≤ 1
differ_bits-le a b = (differ-digits (a % 2) (b % 2) (omega arith) (omega arith)).0

pub differ_bits_comm : (a b : ℕ) → differ (a % 2) (b % 2) ≡ differ (b % 2) (a % 2)
differ_bits_comm a b = (differ-digits (a % 2) (b % 2) (omega arith) (omega arith)).1
