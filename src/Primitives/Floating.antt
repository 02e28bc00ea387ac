-- ===== src/Primitives/Floating.antt =====
-- The arithmetic and the comparisons where an operand is no integer.
use primordialsoup.Base.{
  true-false, ◌≡◌, refl, sym, ◌∙◌, arith, Bool, true, false, ◌&&◌, Option, none, some,
}
use primordialsoup.Large.Number.{Number, IsNumber}
use primordialsoup.Primitives.Order.{comparisons-are}
use primordialsoup.Math.{OverflowChecks}
use primordialsoup.Primitives.{
  Floats, Outcome, done, ◌orelse◌, both, Object, number, float, boolean, other, number_of, finish,
  float_value, or_failure, float_arm, number_add, number_subtract, number_multiply, number_less,
  number_greater, number_less_or_equal, number_greater_or_equal,
}

abbrev pub is_integer : {D : Type 0} → Object D → Bool
is_integer (number n) = true
is_integer (float x) = false
is_integer (boolean b) = false
is_integer (other w) = false

-- An operation of C++ on two floats, if there are two.
abbrev pub lifted : {A B : Type 0} → (A → A → B) → Option A → Option A → Option B
lifted g none y = none
lifted g (some x) none = none
lifted g (some x) (some y) = some (g x y)

lifted-none : {A B : Type 0} (g : A → A → B) (x : Option A) → lifted g x none ≡ none
lifted-none g none = refl
lifted-none g (some x) = refl

module _ (fs : Floats) (checks : OverflowChecks) where
  floats_lifted :
      (g : fs.Double → fs.Double → Object fs.Double) (x y : Option fs.Double)
      → finish (or_failure fs checks x (λ a. or_failure fs checks y (λ b. done (g a b))))
        ≡ lifted g x y
  floats_lifted g none y = refl
  floats_lifted g (some a) none = refl
  floats_lifted g (some a) (some b) = refl

  beside_integers :
      (k : Number → Number → Outcome (Object fs.Double))
      (g : fs.Double → fs.Double → Object fs.Double) (left right : Object fs.Double)
      → (is_integer left && is_integer right) ≡ false
      → finish (both (number_of left) (number_of right) k orelse float_arm fs checks g left right)
        ≡ lifted g (float_value fs checks left) (float_value fs checks right)
  beside_integers k g (number x) (number y) h = absurd (true-false h)
  beside_integers k g (number x) (float d) h =
      floats_lifted g (float_value fs checks (number x)) (some d)
  beside_integers k g (number x) (boolean b) h =
      sym (lifted-none g (float_value fs checks (number x)))
  beside_integers k g (number x) (other w) h =
      sym (lifted-none g (float_value fs checks (number x)))
  beside_integers k g (float d) y h = floats_lifted g (some d) (float_value fs checks y)
  beside_integers k g (boolean b) (number y) h = refl
  beside_integers k g (boolean b) (float d) h = refl
  beside_integers k g (boolean b) (boolean c) h = refl
  beside_integers k g (boolean b) (other w) h = refl
  beside_integers k g (other w) (number y) h = refl
  beside_integers k g (other w) (float d) h = refl
  beside_integers k g (other w) (boolean c) h = refl
  beside_integers k g (other w) (other v) h = refl

  -- The float arm of the arithmetic and the comparisons but `Number_equal`.
  operations_on_floats :
      (left right : Object fs.Double)
      → (is_integer left && is_integer right) ≡ false
      → let x = float_value fs checks left in
        let y = float_value fs checks right in
        (number_add fs checks left right ≡ lifted (λ a b. float (fs.plus a b)) x y)
        × (number_subtract fs checks left right ≡ lifted (λ a b. float (fs.minus a b)) x y)
        × (number_multiply fs checks left right ≡ lifted (λ a b. float (fs.times a b)) x y)
        × (number_less fs checks left right ≡ lifted (λ a b. boolean (fs.less_than a b)) x y)
        × (number_greater fs checks left right ≡ lifted (λ a b. boolean (fs.less_than b a)) x y)
        × (number_less_or_equal fs checks left right ≡ lifted (λ a b. boolean (fs.at_most a b)) x y)
        × (number_greater_or_equal fs checks left right
            ≡ lifted (λ a b. boolean (fs.at_most b a)) x y)
  unfolding number_add number_subtract number_multiply number_less number_greater
      number_less_or_equal number_greater_or_equal
  operations_on_floats left right h = (
    beside_integers _ _ left right h,
    beside_integers _ _ left right h,
    beside_integers _ _ left right h,
    beside_integers _ _ left right h,
    beside_integers _ _ left right h,
    beside_integers _ _ left right h,
    beside_integers _ _ left right h,
  )

-- An object whose number, if it is one, is represented as the program does.
abbrev pub IsObject : {D : Type 0} → Object D → Type 0
IsObject (number n) = IsNumber n
IsObject (float x) = Unit {0}
IsObject (boolean b) = Unit {0}
IsObject (other w) = Unit {0}

lifted-flip :
    {A B : Type 0} (g : A → A → B) (x y : Option A) → lifted g x y ≡ lifted (λ a b. g b a) y x
lifted-flip g none none = refl
lifted-flip g none (some y) = refl
lifted-flip g (some x) none = refl
lifted-flip g (some x) (some y) = refl

and_comm : (b c : Bool) → (b && c) ≡ (c && b)
and_comm b c = ground arith

module _ (fs : Floats) (checks : OverflowChecks) where
  abbrev Mirrored : Object fs.Double → Object fs.Double → Type 0
  Mirrored left right =
      (number_less fs checks left right ≡ number_greater fs checks right left)
      × (number_less_or_equal fs checks left right ≡ number_greater_or_equal fs checks right left)

  floats-Mirrored :
      (left right : Object fs.Double)
      → (is_integer left && is_integer right) ≡ false
      → Mirrored left right
  floats-Mirrored left right h =
      let here = operations_on_floats fs checks left right h in
      let there =
        operations_on_floats fs checks right left
          (and_comm (is_integer right) (is_integer left) ∙ h) in
      (here.3 ∙ lifted-flip _ _ _ ∙ sym there.4, here.5 ∙ lifted-flip _ _ _ ∙ sym there.6)

  -- For any two operands, integers, floats, others or one of each, `Number_less` does what
  -- `Number_greater` does for the operands in the other order, and `Number_lessOrEqual` what
  -- `Number_greaterOrEqual` does, failures included.
  pub comparisons_mirror :
      (left right : Object fs.Double)
      → IsObject left
      → IsObject right
      → (number_less fs checks left right ≡ number_greater fs checks right left)
        × (number_less_or_equal fs checks left right ≡ number_greater_or_equal fs checks right left)
  comparisons_mirror (number x) (number y) hx hy =
      let here = comparisons-are fs checks x y hx hy in
      let there = comparisons-are fs checks y x hy hx in
      (here.0 ∙ sym there.1, here.2 ∙ sym there.3)
  comparisons_mirror (number x) (float b) hx hy = floats-Mirrored (number x) (float b) refl
  comparisons_mirror (number x) (boolean b) hx hy = floats-Mirrored (number x) (boolean b) refl
  comparisons_mirror (number x) (other b) hx hy = floats-Mirrored (number x) (other b) refl
  comparisons_mirror (float a) right hx hy = floats-Mirrored (float a) right refl
  comparisons_mirror (boolean a) right hx hy = floats-Mirrored (boolean a) right refl
  comparisons_mirror (other a) right hx hy = floats-Mirrored (other a) right refl
