-- ===== src/Large/Shift/Left.antt =====
-- `ShiftLeft` multiplies by a power of two.
use native.Mathlib.Nat.{zero-mul, mul_assoc, mul_comm, mul-pos}
use primordialsoup.Base.{
  ℕ, zero, suc, ◌+◌, ◌-◌, ◌*◌, ◌/◌, ◌%◌, ◌^◌, ◌<◌, ◌≡◌, sym, ap, ◌∙◌, Bool, true, false, List, [],
  ◌∷◌, ◌++◌, ◌==◌, replicate, arith, Bool-cases, inl, inr,
}
use primordialsoup.Base.Int.{pos, ◌*ℤ◌}
use primordialsoup.Base.Powers.{two-pow_add, two-pow_pos}
use primordialsoup.Large.Digits.{value, IsDigits, IsClamped, IsClamped-pos}
use primordialsoup.Large.Signed.{LargeInteger, IsVerified, SignOf, integer, signed}
use primordialsoup.Large.Signed.Signs.{signed-multiply}
use primordialsoup.Large.Signed.Ring.{StandsFor}
use primordialsoup.Large.Shift.{shift_left}
use primordialsoup.Large.Shift.Digit.{value-shift_loop, shift_loop-IsClamped}

-- A positive number may have either sign.
pub positive-SignOf : (negative : Bool) (ds : List ℕ) → 0 < value ds → SignOf negative ds
positive-SignOf negative [] h = absurd (omega arith)
positive-SignOf negative (d ∷ ds) h = tt

pub word-pow_suc : (k : ℕ) → 2 ^ (32 * suc k) ≡ 4294967296 * 2 ^ (32 * k)
word-pow_suc k =
    ap (λ (t : ℕ). 2 ^ t) (let e : 32 * suc k ≡ 32 + 32 * k = omega arith in e)
    ∙ two-pow_add 32 (32 * k)

value-zeros : (k : ℕ) (ds : List ℕ) → value (replicate k 0 ++ ds) ≡ 2 ^ (32 * k) * value ds
value-zeros zero ds = grind arith
value-zeros (suc k) ds =
    rw (word-pow_suc k, value-zeros k ds)
      (omega (arith, mul_assoc 4294967296 (2 ^ (32 * k)) (value ds)))

zeros-IsDigits : (k : ℕ) (ds : List ℕ) → IsDigits ds → IsDigits (replicate k 0 ++ ds)
zeros-IsDigits zero ds h = h
zeros-IsDigits (suc k) ds h = (omega arith, zeros-IsDigits k ds h)

zeros-IsClamped :
    (k : ℕ) (ds : List ℕ) → 0 < value ds → IsClamped ds → IsClamped (replicate k 0 ++ ds)
zeros-IsClamped zero ds h c = c
zeros-IsClamped (suc zero) [] h c = absurd (omega arith)
zeros-IsClamped (suc zero) (d ∷ ds) h c = c
zeros-IsClamped (suc (suc k)) ds h c = zeros-IsClamped (suc k) ds h c

-- The exponent is so many digits and so many bits.
pub pow-digits : (right : ℕ) → 2 ^ (32 * (right / 32)) * 2 ^ (right % 32) ≡ 2 ^ right
pow-digits right =
    sym (two-pow_add (32 * (right / 32)) (right % 32))
    ∙ ap (λ (t : ℕ). 2 ^ t) (let e : 32 * (right / 32) + right % 32 ≡ right = omega arith in e)

-- Digits with so many zeros below them.
module _ (negative : Bool) (v right : ℕ) (ds : List ℕ) (h : IsDigits ds) (c : IsClamped ds)
    (positive : 0 < v) (e : value ds ≡ 2 ^ (right % 32) * v) where
  scaled : value (replicate (right / 32) 0 ++ ds) ≡ v * 2 ^ right
  scaled =
      value-zeros (right / 32) ds
      ∙ ap (λ (t : ℕ). 2 ^ (32 * (right / 32)) * t) e
      ∙ sym (mul_assoc (2 ^ (32 * (right / 32))) (2 ^ (right % 32)) v)
      ∙ ap (λ (t : ℕ). t * v) (pow-digits right)
      ∙ mul_comm (2 ^ right) v

  zeros-StandsFor :
      StandsFor
        (signed negative v *ℤ pos (2 ^ right))
        (record { negative = negative; digits = replicate (right / 32) 0 ++ ds })
  zeros-StandsFor =
      let some : 0 < value ds = rw e (mul-pos (two-pow_pos (right % 32)) positive) in
      let more : 0 < value (replicate (right / 32) 0 ++ ds) =
        rw scaled (mul-pos positive (two-pow_pos right)) in
      record {
        verified = record {
          in_range = zeros-IsDigits (right / 32) ds h;
          top = zeros-IsClamped (right / 32) ds some c;
          sign = positive-SignOf negative _ more;
        };
        is = ap (signed negative) scaled ∙ signed-scaled negative;
      }
    where
      signed-scaled : (b : Bool) → signed b (v * 2 ^ right) ≡ signed b v *ℤ pos (2 ^ right)
      signed-scaled true = signed-multiply true false v (2 ^ right)
      signed-scaled false = signed-multiply false false v (2 ^ right)

nothing : (right : ℕ) → signed false 0 ≡ signed false 0 *ℤ pos (2 ^ right)
nothing right =
    ap (signed false) (sym (zero-mul (2 ^ right))) ∙ signed-multiply false false 0 (2 ^ right)

shift_left_signs :
    (negative : Bool) (ds : List ℕ) (right : ℕ)
    → IsVerified (record { negative = negative; digits = ds })
    → StandsFor
        (signed negative (value ds) *ℤ pos (2 ^ right))
        (shift_left (record { negative = negative; digits = ds }) right)
unfolding shift_left
shift_left_signs negative [] right h = record { verified = h; is = rw (h.sign) (nothing right) }
shift_left_signs negative (d ∷ ds) right h =
    let positive = IsClamped-pos d ds h.top in
    elim (Bool-cases (right % 32 == 0)) [
      | inl e ↦
          let none : right % 32 ≡ 0 = ground arith in
          rw e (
            zeros-StandsFor negative (value (d ∷ ds)) right (d ∷ ds) h.in_range h.top positive
              (rw none (grind arith)))
      | inr e ↦
          let some : 0 < right % 32 = ground arith in
          let both : right % 32 + (32 - right % 32) ≡ 32 = omega arith in
          let (is, range) =
            value-shift_loop (right % 32) (32 - right % 32) both 0 (d ∷ ds) (two-pow_pos _)
              h.in_range in
          rw e (
            zeros-StandsFor negative (value (d ∷ ds)) right _ range
              (shift_loop-IsClamped (right % 32) (32 - right % 32) both 0 d ds (two-pow_pos _)
                h.in_range h.top)
              positive (omega (arith, is)))
    ]

-- `ShiftLeft` of a verified integer is verified and stands for it times the power of two.
pub shift_left-StandsFor :
    (left : LargeInteger) (right : ℕ)
    → IsVerified left
    → StandsFor (integer left *ℤ pos (2 ^ right)) (shift_left left right)
shift_left-StandsFor left right h = shift_left_signs left.negative left.digits right h
