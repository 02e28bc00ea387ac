-- ===== src/Large/Shift.antt =====
-- `LargeInteger::ShiftLeft` and `ShiftRight`.
pub mod Digit
pub mod Left
pub mod Right
pub mod Floor
pub mod Round
pub mod Lost
use primordialsoup.Base.{
  ℕ, zero, suc, ◌+◌, ◌-◌, ◌*◌, ◌/◌, ◌%◌, ◌^◌, ◌≤◌, ◌<◌, Bool, true, false, not, ◌&&◌, ◌||◌, Option,
  none, some, List, [], ◌∷◌, ◌++◌, ltb, leb, ◌==◌, if◌then◌else◌, length, replicate, drop, bit_or,
}
use primordialsoup.Large.Digits.{digit_base}
use primordialsoup.Large.Sum.{add_one_in_place}
use primordialsoup.Large.Signed.{LargeInteger}

-- The loop that both have, with the digit that follows it and the size that drops this digit if it
-- is 0. `up` and `down` are `bit_shift_up` and `bit_shift_down`.
unfoldable pub shift_loop : ℕ → ℕ → ℕ → List ℕ → List ℕ
shift_loop up down carry [] = if carry == 0 then [] else carry ∷ []
shift_loop up down carry (d ∷ ds) =
    bit_or (d * 2 ^ up % digit_base) carry ∷ shift_loop up down (d / 2 ^ down) ds

unfoldable pub shift_left_digits : List ℕ → ℕ → List ℕ
unfolding shift_loop
shift_left_digits [] right = []
shift_left_digits (d ∷ ds) right =
    if right % 32 == 0
    then replicate (right / 32) 0 ++ (d ∷ ds)
    else replicate (right / 32) 0 ++ shift_loop (right % 32) (32 - right % 32) 0 (d ∷ ds)

unfoldable pub shift_left : LargeInteger → ℕ → LargeInteger
unfolding shift_left_digits
shift_left left right = record {
  negative = left.negative;
  digits = shift_left_digits left.digits right;
}

-- Whether a digit of the first `digit_shift` is not 0.
unfoldable pub any_nonzero : ℕ → List ℕ → Bool
any_nonzero zero ds = false
any_nonzero (suc n) [] = false
any_nonzero (suc n) (d ∷ ds) = let rest = any_nonzero n ds in if d == 0 then rest else true

-- The digits of the result before one is added, and whether a bit was shifted out. `none` if a digit
-- is read out of bounds.
unfoldable pub shift_down : List ℕ → ℕ → ℕ → List ℕ → Option (List ℕ × Bool)
unfolding shift_loop any_nonzero
shift_down all digit_shift down [] = none
shift_down all digit_shift down (d ∷ ds) = some (
  shift_loop (32 - down) down (d / 2 ^ down) ds,
  not (d * 2 ^ (32 - down) % digit_base == 0) || any_nonzero digit_shift all,
)

unfoldable pub shift_right_digits : List ℕ → ℕ → Option (List ℕ × Bool)
unfolding shift_down
shift_right_digits ds right =
    if right % 32 == 0
    then if ltb (length ds) (right / 32)
      then none
      else some (drop (right / 32) ds, any_nonzero (right / 32) ds)
    else shift_down ds (right / 32) (right % 32) (drop (right / 32) ds)

abbrev pub round_down : Bool → List ℕ × Bool → LargeInteger
round_down negative (ds, out) = record {
  negative = negative;
  digits = if negative && out then add_one_in_place ds else ds;
}

unfoldable pub shift_right : LargeInteger → ℕ → Option LargeInteger
shift_right left right = elim (shift_right_digits left.digits right) [
  | none ↦ none
  | some shifted ↦ some (round_down left.negative shifted)
]
