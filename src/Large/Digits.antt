-- ===== src/Large/Digits.antt =====
-- Lists of 32-bit digits, least significant first: `digits_[0 .. size)` of a `LargeInteger`, what
-- number they stand for, and `Clamp`.
use primordialsoup.Base.{
  ℕ, ◌+◌, ◌*◌, ◌<◌, ◌≡◌, refl, List, [], ◌∷◌, arith, ◌==◌, if◌then◌else◌, length,
}

-- `kDigitBase`; `kDigitMask` is one less, and `kDigitBits` and `kDigitShift` are 32.
abbrev pub digit_base : ℕ
digit_base = 4294967296

-- The number that the digits stand for.
abbrev pub value : List ℕ → ℕ
value [] = 0
value (d ∷ ds) = d + 4294967296 * value ds

-- `kDigitBase` to the number of digits.
abbrev pub weight : List ℕ → ℕ
weight [] = 1
weight (d ∷ ds) = 4294967296 * weight ds

abbrev pub IsDigits : List ℕ → Type 0
IsDigits [] = Unit {0}
IsDigits (d ∷ ds) = (d < 4294967296) × IsDigits ds

-- The most significant digit is not zero, as `Verify` asserts.
abbrev pub IsClamped : List ℕ → Type 0
IsClamped [] = Unit {0}
IsClamped (d ∷ []) = 0 < d
IsClamped (d ∷ e ∷ ds) = IsClamped (e ∷ ds)

-- The scan of `Clamp` from the most significant digit: a digit stays if it or one above it is not 0.
abbrev trim_digit : ℕ → List ℕ → List ℕ
trim_digit d [] = if d == 0 then [] else d ∷ []
trim_digit d (e ∷ ds) = d ∷ e ∷ ds

unfoldable pub trim : List ℕ → List ℕ
trim [] = []
trim (d ∷ ds) = trim_digit d (trim ds)

pub value-lt-weight : (ds : List ℕ) → IsDigits ds → value ds < weight ds
value-lt-weight [] h = omega arith
value-lt-weight (d ∷ ds) h = omega (arith, value-lt-weight ds h.1)

value-trim_digit : (d : ℕ) (ds : List ℕ) → value (trim_digit d ds) ≡ d + 4294967296 * value ds
value-trim_digit d [] = ground arith
value-trim_digit d (e ∷ ds) = refl

pub value-trim : (ds : List ℕ) → value (trim ds) ≡ value ds
unfolding trim
value-trim [] = refl
value-trim (d ∷ ds) = omega (arith, value-trim_digit d (trim ds), value-trim ds)

trim_digit-IsDigits :
    (d : ℕ) (ds : List ℕ) → d < 4294967296 → IsDigits ds → IsDigits (trim_digit d ds)
trim_digit-IsDigits d [] h k = ground arith
trim_digit-IsDigits d (e ∷ ds) h k = (h, k)

pub trim-IsDigits : (ds : List ℕ) → IsDigits ds → IsDigits (trim ds)
unfolding trim
trim-IsDigits [] h = tt
trim-IsDigits (d ∷ ds) h = trim_digit-IsDigits d (trim ds) h.0 (trim-IsDigits ds h.1)

trim_digit-IsClamped : (d : ℕ) (ds : List ℕ) → IsClamped ds → IsClamped (trim_digit d ds)
trim_digit-IsClamped d [] h = ground arith
trim_digit-IsClamped d (e ∷ ds) h = h

pub trim-IsClamped : (ds : List ℕ) → IsClamped (trim ds)
unfolding trim
trim-IsClamped [] = tt
trim-IsClamped (d ∷ ds) = trim_digit-IsClamped d (trim ds) (trim-IsClamped ds)

-- Clamped digits stand for a positive number, unless there are none.
pub IsClamped-pos : (d : ℕ) (ds : List ℕ) → IsClamped (d ∷ ds) → 0 < value (d ∷ ds)
IsClamped-pos d [] h = omega arith
IsClamped-pos d (e ∷ ds) h = omega (arith, IsClamped-pos e ds h)

pub IsClamped-tail : (d : ℕ) (ds : List ℕ) → IsClamped (d ∷ ds) → IsClamped ds
IsClamped-tail d [] h = tt
IsClamped-tail d (e ∷ ds) h = h

-- Of two clamped numbers the one with more digits is the larger.
pub value-lt_of_length :
    (ds es : List ℕ) → IsDigits ds → IsClamped es → length ds < length es → value ds < value es
value-lt_of_length [] [] h k lt = absurd (omega arith)
value-lt_of_length [] (e ∷ es) h k lt = IsClamped-pos e es k
value-lt_of_length (d ∷ ds) [] h k lt = absurd (omega arith)
value-lt_of_length (d ∷ ds) (e ∷ es) h k lt =
    omega (arith, value-lt_of_length ds es h.1 (IsClamped-tail e es k) (omega arith))
