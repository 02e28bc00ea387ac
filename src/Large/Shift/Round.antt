-- ===== src/Large/Shift/Round.antt =====
-- `ShiftRight` rounds down: the absolute value of a negative number is rounded up, by
-- `AbsAddOneInPlace`, which has no room for a digit more.
use native.Mathlib.Nat.{mul-zero}
use primordialsoup.Base.{
  ℕ, zero, suc, ◌+◌, ◌*◌, ◌/◌, ◌^◌, ◌≤◌, ◌<◌, ◌≡◌, ◌≢◌, refl, ap, ◌∙◌, Bool, true, false, some,
  List, [], ◌∷◌, length, arith, u64,
}
use primordialsoup.Base.Powers.{two-pow_pos}
use primordialsoup.Large.Digits.{
  digit_base, value, weight, IsDigits, IsClamped, IsClamped-pos, value-lt-weight,
}
use primordialsoup.Large.Sum.{
  increment_digits, add_one_in_place, increment_digits-IsDigits, value-increment_digits,
}
use primordialsoup.Large.Signed.{LargeInteger, IsVerified, SignOf, integer, signed}
use primordialsoup.Large.Signed.Ring.{StandsFor}
use primordialsoup.Large.Shift.{shift_right_digits, shift_right, round_down}
use primordialsoup.Large.Shift.Left.{positive-SignOf, word-pow_suc}
use primordialsoup.Large.Shift.Right.{Divides, shift_right_digits-Divides}
use primordialsoup.Large.Shift.Floor.{
  floor_div, floor_div-pos, floor_div-exact, floor_div-inexact, quotient,
}

pub weight-is : (ds : List ℕ) → weight ds ≡ 2 ^ (32 * length ds)
weight-is [] = refl
weight-is (d ∷ ds) = omega (arith, weight-is ds, word-pow_suc (length ds))

-- The number after this one takes no digit more, unless this one has none.
abbrev pub HasRoom : ℕ → Type 0
HasRoom n = (k : ℕ) → n + 1 ≢ 2 ^ (32 * suc k)

increment-IsClamped :
    (c d : ℕ) (ds : List ℕ)
    → c ≤ 1
    → IsDigits (d ∷ ds)
    → IsClamped (d ∷ ds)
    → value (d ∷ ds) + c < weight (d ∷ ds)
    → IsClamped (increment_digits c (d ∷ ds))
unfolding increment_digits
increment-IsClamped c d [] h k t lt = omega arith
increment-IsClamped c d (e ∷ ds) h k t lt =
    increment-IsClamped (u64 (c + d) / digit_base) e ds (omega arith) k.1 t (omega arith)

pub record AddsOne (ds result : List ℕ) : Type 0 where
  pub is : value result ≡ value ds + 1
  pub range : IsDigits result
  pub top : IsClamped result

pub add_one-AddsOne :
    (ds : List ℕ)
    → IsDigits ds
    → IsClamped ds
    → HasRoom (value ds)
    → AddsOne ds (add_one_in_place ds)
unfolding add_one_in_place
add_one-AddsOne [] h c room = record {
  is = omega arith;
  range = (omega arith, tt);
  top = omega arith;
}
add_one-AddsOne (d ∷ ds) h c room =
    let bound = value-lt-weight (d ∷ ds) h in
    let fits : value (d ∷ ds) + 1 < weight (d ∷ ds) =
      strict (λ e. room (length ds) (e ∙ weight-is (d ∷ ds))) bound in
    record {
      is = value-increment_digits 1 (d ∷ ds) (omega arith) h fits;
      range = increment_digits-IsDigits 1 (d ∷ ds);
      top = increment-IsClamped 1 d ds (omega arith) h c fits;
    }
  where
    strict : {a b : ℕ} → (a + 1 ≡ b → ⊥) → a < b → a + 1 < b
    strict f h = ground arith

pub false-SignOf : (ds : List ℕ) → SignOf false ds
false-SignOf [] = refl
false-SignOf (d ∷ ds) = tt

module _ (v m : ℕ) (q : List ℕ) (hv : 0 < v) (hm : 0 < m) where
  rounded :
      (negative lost : Bool)
      → Divides v m q lost
      → (negative ≡ true → HasRoom (value q))
      → StandsFor (floor_div (signed negative v) m) (round_down negative (q, lost))
  rounded false lost h room = record {
    verified = record { in_range = h.range; top = h.top; sign = false-SignOf q };
    is = rw (h.is) (floor_div-pos m (value q) h.remainder h.small);
  }
  rounded true false h room =
      let some_left : 0 < value q = positive (value q) h.is (h.exact refl) in
      record {
        verified = record {
          in_range = h.range;
          top = h.top;
          sign = positive-SignOf true q some_left;
        };
        is = rw (h.is, h.exact refl) (floor_div-exact m (value q) hm some_left);
      }
    where
      positive : (n : ℕ) → v ≡ m * n + h.remainder → h.remainder ≡ 0 → 0 < n
      positive zero e z = absurd (omega (arith, mul-zero m))
      positive (suc n) e z = omega arith
  rounded true true h room =
      let one = add_one-AddsOne q h.range h.top (room refl) in
      record {
        verified = record {
          in_range = one.range;
          top = one.top;
          sign = positive-SignOf true _ (rw (one.is) (omega arith));
        };
        is = rw (one.is, h.is) (floor_div-inexact m (value q) h.remainder h.small (h.inexact refl));
      }

-- For a negative number, the room for its shifted absolute value.
abbrev pub ShiftFits : LargeInteger → ℕ → Type 0
ShiftFits left right = left.negative ≡ true → HasRoom (value left.digits / 2 ^ right)

pub value_pos : (ds : List ℕ) → IsClamped ds → 0 < length ds → 0 < value ds
value_pos [] c h = absurd (omega arith)
value_pos (d ∷ ds) c h = IsClamped-pos d ds c

pub shift_right-some :
    (left : LargeInteger) (right : ℕ) (shifted : List ℕ × Bool)
    → shift_right_digits left.digits right ≡ some shifted
    → shift_right left right ≡ some (round_down left.negative shifted)
unfolding shift_right
shift_right-some left right shifted e = rw (shift_right, e)

-- `ShiftRight` of a verified integer by less than its digits is verified and stands for the integer
-- divided by the power of two and rounded down; if it is negative, then unless the shifted absolute
-- value has all its digits full.
pub shift_right-StandsFor :
    (left : LargeInteger) (right : ℕ)
    → IsVerified left
    → right < 32 * length left.digits
    → ShiftFits left right
    → (result : LargeInteger) × (shift_right left right ≡ some result)
      × StandsFor (floor_div (integer left) (2 ^ right)) result
shift_right-StandsFor left right h lt fits =
    let (q, lost, run, divides) =
      shift_right_digits-Divides left.digits right h.in_range h.top lt in
    let is : value left.digits / 2 ^ right ≡ value q =
      ap (λ (t : ℕ). t / 2 ^ right) divides.is
      ∙ quotient (2 ^ right) (value q) divides.remainder divides.small in
    (
      round_down left.negative (q, lost),
      shift_right-some left right (q, lost) run,
      rounded (value left.digits) (2 ^ right) q (value_pos left.digits h.top (omega arith))
          (two-pow_pos right) left.negative lost divides (λ e. rw is at (fits e)),
    )
