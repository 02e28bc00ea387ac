-- ===== src/Large/Bitwise/Length.antt =====
-- The exchange of the operands at the head of `And`, `Or` and `Xor`, which makes `left` the shorter.
use primordialsoup.Base.{
  ℕ, ◌≤◌, ◌≡◌, ◌≢◌, refl, ap, Bool, true, false, List, ltb, if◌then◌else◌, length, Bool-cases, inl,
  inr, arith,
}
use primordialsoup.Base.Int.{ℤ, pos, negsuc}
use primordialsoup.Base.Bits.Split.{bit_and_comm, bit_or_comm, bit_xor_comm}
use primordialsoup.Large.Digits.{value}
use primordialsoup.Large.Signed.{LargeInteger, integer, IsVerified, signed}
use primordialsoup.Large.Signed.Ring.{StandsFor}
use primordialsoup.Large.Bitwise.{by_length}
use primordialsoup.Large.Bitwise.Twos.{and_ℤ, or_ℤ, xor_ℤ}
use primordialsoup.Large.Bitwise.Cases.{Always}

pub and_ℤ_comm : (a b : ℤ) → and_ℤ a b ≡ and_ℤ b a
unfolding and_ℤ
and_ℤ_comm (pos a) (pos b) = ap pos (bit_and_comm a b)
and_ℤ_comm (pos a) (negsuc b) = refl
and_ℤ_comm (negsuc a) (pos b) = refl
and_ℤ_comm (negsuc a) (negsuc b) = ap negsuc (bit_or_comm a b)

pub or_ℤ_comm : (a b : ℤ) → or_ℤ a b ≡ or_ℤ b a
unfolding or_ℤ
or_ℤ_comm (pos a) (pos b) = ap pos (bit_or_comm a b)
or_ℤ_comm (pos a) (negsuc b) = refl
or_ℤ_comm (negsuc a) (pos b) = refl
or_ℤ_comm (negsuc a) (negsuc b) = ap negsuc (bit_and_comm a b)

pub xor_ℤ_comm : (a b : ℤ) → xor_ℤ a b ≡ xor_ℤ b a
unfolding xor_ℤ
xor_ℤ_comm (pos a) (pos b) = ap pos (bit_xor_comm a b)
xor_ℤ_comm (pos a) (negsuc b) = ap negsuc (bit_xor_comm a b)
xor_ℤ_comm (negsuc a) (pos b) = ap negsuc (bit_xor_comm a b)
xor_ℤ_comm (negsuc a) (negsuc b) = ap pos (bit_xor_comm a b)

-- A condition on the operands as the code orders them.
abbrev pub ByLength :
    (Bool → Bool → List ℕ → List ℕ → Type 0) → LargeInteger → LargeInteger → Type 0
ByLength P left right =
    if ltb (length right.digits) (length left.digits)
    then P right.negative left.negative right.digits left.digits
    else P left.negative right.negative left.digits right.digits

abbrev pub Branches : Type 0
Branches = Bool → Bool → List ℕ → List ℕ → LargeInteger

abbrev pub IsRight : Branches → (Bool → Bool → List ℕ → List ℕ → Type 0) → (ℤ → ℤ → ℤ) → Type 0
IsRight branches P f =
    (ss ls : List ℕ)
    → length ss ≤ length ls
    → (ns nl : Bool) → IsVerified (record { negative = ns; digits = ss })
    → IsVerified (record { negative = nl; digits = ls })
    → P ns nl ss ls
    → StandsFor (f (signed ns (value ss)) (signed nl (value ls))) (branches ns nl ss ls)

lt-le : (a b : ℕ) → ltb a b ≡ true → a ≤ b
lt-le a b h = ground arith

not-lt-le : (a b : ℕ) → ltb a b ≡ false → b ≤ a
not-lt-le a b h = ground arith

-- It does not matter which operand is the longer.
pub by_length-StandsFor :
    (branches : Branches) (P : Bool → Bool → List ℕ → List ℕ → Type 0) (f : ℤ → ℤ → ℤ)
    → ((a b : ℤ) → f a b ≡ f b a)
    → IsRight branches P f
    → (left right : LargeInteger) → IsVerified left
    → IsVerified right
    → ByLength P left right
    → StandsFor (f (integer left) (integer right)) (by_length branches left right)
by_length-StandsFor branches P f comm right_branch left right hl hr fits =
    elim (Bool-cases (ltb (length right.digits) (length left.digits))) [
      | inl e ↦
          rw (e, comm (integer left) (integer right))
            (right_branch right.digits left.digits (lt-le _ _ e) right.negative left.negative hr hl
              (rw e at fits))
      | inr e ↦ rw e (
          right_branch left.digits right.digits (not-lt-le _ _ e) left.negative right.negative hl hr
            (rw e at fits))
    ]

pub Always-ByLength : (left right : LargeInteger) → ByLength Always left right
Always-ByLength left right = elim (Bool-cases (ltb (length right.digits) (length left.digits))) [
  | inl e ↦ rw e tt
  | inr e ↦ rw e tt
]

pub ByLength-ne :
    (P : Bool → Bool → List ℕ → List ℕ → Type 0) (f : ℤ → ℤ → ℤ)
    → ((a b : ℤ) → f a b ≡ f b a)
    → ((ss ls : List ℕ) (ns nl : Bool)
        → IsVerified (record { negative = ns; digits = ss })
        → IsVerified (record { negative = nl; digits = ls })
        → P ns nl ss ls
        → f (signed ns (value ss)) (signed nl (value ls)) ≢ pos 0)
    → (left right : LargeInteger) → IsVerified left
    → IsVerified right
    → ByLength P left right
    → f (integer left) (integer right) ≢ pos 0
ByLength-ne P f comm ne left right hl hr lost =
    elim (Bool-cases (ltb (length right.digits) (length left.digits))) [
      | inl e ↦
          rw (comm (integer left) (integer right))
            (ne right.digits left.digits right.negative left.negative hr hl (rw e at lost))
      | inr e ↦ ne left.digits right.digits left.negative right.negative hl hr (rw e at lost)
    ]
