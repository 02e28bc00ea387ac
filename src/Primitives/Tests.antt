-- ===== src/Primitives/Tests.antt =====
-- The primitives at concrete operands. The floats of these tests are integers.
use primordialsoup.Base.{◌≡◌, refl, true, false, not, some, [], ◌∷◌, arith}
use primordialsoup.Base.Int.{eq_ℤ, ℤ, pos, negsuc, ltb_ℤ, ◌+ℤ◌, ◌-ℤ◌, ◌*ℤ◌}
use primordialsoup.Large.Signed.{LargeInteger, integer}
use primordialsoup.Large.Number.{
  Number, small, large, number_value, expand, IsNumber, IsCanonical, is_smi,
}
use primordialsoup.Math.Overflow.{fallback}
use primordialsoup.Primitives.{
  Floats, number, float, boolean, number_add, number_subtract, number_multiply, number_less,
  number_greater, number_less_or_equal, number_greater_or_equal, number_equal,
}
use primordialsoup.Math.{trunc_div}
use primordialsoup.Primitives.Ring.{Yields, ring_operations-are}
use primordialsoup.Primitives.Order.{comparisons-are}
use primordialsoup.Primitives.Floating.{comparisons_mirror}
use primordialsoup.Primitives.Shifts.{shift_number_left, shift_number_right}
use primordialsoup.Primitives.Shifts.Left.{ShiftsLeft, shift_number_left-ShiftsLeft}
use primordialsoup.Primitives.Shifts.Right.{
  ShiftsRight, InMemory, ShiftRoom, shift_number_right-ShiftsRight,
}

abbrev pub exact : Floats
exact = record {
  Double = ℤ;
  of_int64 = λ a. a;
  of_large = λ l. integer l;
  plus = λ a b. a +ℤ b;
  minus = λ a b. a -ℤ b;
  times = λ a b. a *ℤ b;
  over = λ a b. trunc_div a b;
  floor = λ a. a;
  equals = λ a b. eq_ℤ a b;
  less_than = λ a b. ltb_ℤ a b;
  at_most = λ a b. not (ltb_ℤ b a);
}

-- The greatest small integer, and 2 to the power of 64.
abbrev greatest : Number
greatest = small (pos 4611686018427387903)

abbrev pub wide_large : LargeInteger
wide_large = record { negative = false; digits = 0 ∷ 0 ∷ 1 ∷ [] }

abbrev pub wide : Number
wide = large wide_large

abbrev minus_two : Number
minus_two = small (negsuc 1)

abbrev three : Number
three = small (pos 3)

greatest-IsNumber : IsNumber greatest
unfolding IsNumber is_smi
greatest-IsNumber = refl

pub wide-IsNumber : IsNumber wide
unfolding IsNumber
wide-IsNumber = record {
  in_range = (omega arith, (omega arith, (omega arith, tt)));
  top = omega arith;
  sign = tt;
}

minus_two-IsNumber : IsNumber minus_two
unfolding IsNumber is_smi
minus_two-IsNumber = refl

three-IsCanonical : IsCanonical three
unfolding IsCanonical is_smi
three-IsCanonical = refl

ring_operations-are_example :
    Yields
      (number_value greatest +ℤ number_value greatest)
      (number_add exact fallback (number greatest) (number greatest))
    × Yields
        (number_value greatest -ℤ number_value greatest)
        (number_subtract exact fallback (number greatest) (number greatest))
    × Yields
        (number_value greatest *ℤ number_value greatest)
        (number_multiply exact fallback (number greatest) (number greatest))
ring_operations-are_example =
    ring_operations-are exact fallback greatest greatest greatest-IsNumber greatest-IsNumber

comparisons-are_example :
    (number_less exact fallback (number minus_two) (number wide)
      ≡ some (boolean (ltb_ℤ (number_value minus_two) (number_value wide))))
    × (number_greater exact fallback (number minus_two) (number wide)
        ≡ some (boolean (ltb_ℤ (number_value wide) (number_value minus_two))))
    × (number_less_or_equal exact fallback (number minus_two) (number wide)
        ≡ some (boolean (not (ltb_ℤ (number_value wide) (number_value minus_two)))))
    × (number_greater_or_equal exact fallback (number minus_two) (number wide)
        ≡ some (boolean (not (ltb_ℤ (number_value minus_two) (number_value wide)))))
    × (number_equal exact fallback (number minus_two) (number wide)
        ≡ some (boolean (eq_ℤ (number_value minus_two) (number_value wide))))
comparisons-are_example =
    comparisons-are exact fallback minus_two wide minus_two-IsNumber wide-IsNumber

comparisons_mirror_example :
    (number_less exact fallback (number wide) (float (pos 3))
      ≡ number_greater exact fallback (float (pos 3)) (number wide))
    × (number_less_or_equal exact fallback (number wide) (float (pos 3))
        ≡ number_greater_or_equal exact fallback (float (pos 3)) (number wide))
comparisons_mirror_example =
    comparisons_mirror exact fallback (number wide) (float (pos 3)) wide-IsNumber tt

shift_number_left-ShiftsLeft_example :
    ShiftsLeft (number_value greatest) (number_value three) (shift_number_left greatest three)
shift_number_left-ShiftsLeft_example =
    shift_number_left-ShiftsLeft greatest three greatest-IsNumber three-IsCanonical

wide-InMemory : InMemory wide
unfolding expand
wide-InMemory = omega arith

wide-ShiftRoom : ShiftRoom wide (number_value three)
wide-ShiftRoom h = absurd (false-true h)
  where
    false-true : false ≡ true → ⊥
    false-true h = cc

shift_number_right-ShiftsRight_example :
    ShiftsRight (number_value wide) (number_value three) (shift_number_right wide three)
shift_number_right-ShiftsRight_example =
    shift_number_right-ShiftsRight wide three wide-IsNumber three-IsCanonical wide-InMemory
      wide-ShiftRoom
