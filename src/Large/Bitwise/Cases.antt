-- ===== src/Large/Bitwise/Cases.antt =====
-- `And`, `Or` and `Xor` for each pair of signs, `left` being the shorter operand. The result is
-- allocated as many digits as the longer operand has.
use primordialsoup.Base.{
  ℕ, ◌+◌, ◌-◌, ◌≤◌, ◌<◌, ◌≡◌, ◌≢◌, Bool, true, false, List, [], ◌∷◌, length, bit_or, bit_xor, arith,
}
use primordialsoup.Base.Int.{pos, negsuc}
use primordialsoup.Large.Digits.{value, weight, IsClamped-pos}
use primordialsoup.Large.Signed.{IsVerified, signed}
use primordialsoup.Large.Signed.Ring.{StandsFor}
use primordialsoup.Large.Bitwise.{and_signs, or_signs, xor_signs}
use primordialsoup.Large.Bitwise.Branches.{
  and-plain, and-long_negative, and-short_negative, and-both_negative, and-both_negative_lost,
  or-plain, or-long_negative, or-short_negative, or-both_negative, xor-plain, xor-long_negative,
  xor-long_negative_lost, xor-short_negative, xor-short_negative_lost, xor-both_negative,
}
use primordialsoup.Large.Bitwise.Twos.{and_ℤ, or_ℤ, xor_ℤ}

-- A negative number is at least one.
pub nonzero : (ds : List ℕ) → IsVerified (record { negative = true; digits = ds }) → 1 ≤ value ds
nonzero [] h = cc h.sign
nonzero (d ∷ ds) h = IsClamped-pos d ds h.top

pub negative_is : (n : ℕ) → 1 ≤ n → signed true n ≡ negsuc (n - 1)
negative_is n h = ground arith

-- The result is allocated as many digits as the longer operand has. Its absolute value may need one
-- more in `And` for two negative numbers, and in `Xor` where the signs differ.
abbrev pub AndFits : Bool → Bool → List ℕ → List ℕ → Type 0
AndFits true true ss ls = bit_or (value ss - 1) (value ls - 1) + 1 < weight ls
AndFits true false ss ls = Unit {0}
AndFits false b ss ls = Unit {0}

abbrev pub XorFits : Bool → Bool → List ℕ → List ℕ → Type 0
XorFits true true ss ls = Unit {0}
XorFits true false ss ls = bit_xor (value ss - 1) (value ls) + 1 < weight ls
XorFits false true ss ls = bit_xor (value ss) (value ls - 1) + 1 < weight ls
XorFits false false ss ls = Unit {0}

-- The other case.
abbrev pub AndLost : Bool → Bool → List ℕ → List ℕ → Type 0
AndLost true true ss ls = weight ls ≤ bit_or (value ss - 1) (value ls - 1) + 1
AndLost true false ss ls = ⊥
AndLost false b ss ls = ⊥

abbrev pub XorLost : Bool → Bool → List ℕ → List ℕ → Type 0
XorLost true true ss ls = ⊥
XorLost true false ss ls = weight ls ≤ bit_xor (value ss - 1) (value ls) + 1
XorLost false true ss ls = weight ls ≤ bit_xor (value ss) (value ls - 1) + 1
XorLost false false ss ls = ⊥

abbrev pub Always : Bool → Bool → List ℕ → List ℕ → Type 0
Always ns nl ss ls = Unit {0}

module _ (ss ls : List ℕ) (len : length ss ≤ length ls) where
  pub and_signs_lem :
      (ns nl : Bool)
      → IsVerified (record { negative = ns; digits = ss })
      → IsVerified (record { negative = nl; digits = ls })
      → AndFits ns nl ss ls
      → StandsFor (and_ℤ (signed ns (value ss)) (signed nl (value ls))) (and_signs ns nl ss ls)
  and_signs_lem false false hs hl fits = and-plain ss ls hs.in_range hl.in_range len
  and_signs_lem false true hs hl fits =
      rw (negative_is (value ls) (nonzero ls hl))
        (and-long_negative ss ls hs.in_range hl.in_range len (nonzero ls hl))
  and_signs_lem true false hs hl fits =
      rw (negative_is (value ss) (nonzero ss hs))
        (and-short_negative ss ls hs.in_range hl.in_range len (nonzero ss hs))
  and_signs_lem true true hs hl fits =
      rw (negative_is (value ss) (nonzero ss hs), negative_is (value ls) (nonzero ls hl))
        (and-both_negative ss ls hs.in_range hl.in_range len (nonzero ss hs) (nonzero ls hl) fits)

  or_signs_lem :
      (ns nl : Bool)
      → IsVerified (record { negative = ns; digits = ss })
      → IsVerified (record { negative = nl; digits = ls })
      → StandsFor (or_ℤ (signed ns (value ss)) (signed nl (value ls))) (or_signs ns nl ss ls)
  or_signs_lem false false hs hl = or-plain ss ls hs.in_range hl.in_range len hl.top
  or_signs_lem false true hs hl =
      rw (negative_is (value ls) (nonzero ls hl))
        (or-long_negative ss ls hs.in_range hl.in_range len (nonzero ls hl))
  or_signs_lem true false hs hl =
      rw (negative_is (value ss) (nonzero ss hs))
        (or-short_negative ss ls hs.in_range hl.in_range len (nonzero ss hs))
  or_signs_lem true true hs hl =
      rw (negative_is (value ss) (nonzero ss hs), negative_is (value ls) (nonzero ls hl))
        (or-both_negative ss ls hs.in_range hl.in_range len (nonzero ss hs) (nonzero ls hl))

  pub xor_signs_lem :
      (ns nl : Bool)
      → IsVerified (record { negative = ns; digits = ss })
      → IsVerified (record { negative = nl; digits = ls })
      → XorFits ns nl ss ls
      → StandsFor (xor_ℤ (signed ns (value ss)) (signed nl (value ls))) (xor_signs ns nl ss ls)
  xor_signs_lem false false hs hl fits = xor-plain ss ls hs.in_range hl.in_range len
  xor_signs_lem false true hs hl fits =
      rw (negative_is (value ls) (nonzero ls hl))
        (xor-long_negative ss ls hs.in_range hl.in_range len (nonzero ls hl) fits)
  xor_signs_lem true false hs hl fits =
      rw (negative_is (value ss) (nonzero ss hs))
        (xor-short_negative ss ls hs.in_range hl.in_range len (nonzero ss hs) fits)
  xor_signs_lem true true hs hl fits =
      rw (negative_is (value ss) (nonzero ss hs), negative_is (value ls) (nonzero ls hl))
        (xor-both_negative ss ls hs.in_range hl.in_range len (nonzero ss hs) (nonzero ls hl))

  pub or_signs-Always :
      (ns nl : Bool)
      → IsVerified (record { negative = ns; digits = ss })
      → IsVerified (record { negative = nl; digits = ls })
      → Always ns nl ss ls
      → StandsFor (or_ℤ (signed ns (value ss)) (signed nl (value ls))) (or_signs ns nl ss ls)
  or_signs-Always ns nl hs hl always = or_signs_lem ns nl hs hl

  pub and_signs_lost :
      (ns nl : Bool)
      → IsVerified (record { negative = ns; digits = ss })
      → IsVerified (record { negative = nl; digits = ls })
      → AndLost ns nl ss ls
      → StandsFor (pos 0) (and_signs ns nl ss ls)
  and_signs_lost true true hs hl lost =
      and-both_negative_lost ss ls hs.in_range hl.in_range len (nonzero ss hs) (nonzero ls hl) lost
  and_signs_lost true false hs hl lost = absurd lost
  and_signs_lost false nl hs hl lost = absurd lost

  pub xor_signs_lost :
      (ns nl : Bool)
      → IsVerified (record { negative = ns; digits = ss })
      → IsVerified (record { negative = nl; digits = ls })
      → XorLost ns nl ss ls
      → StandsFor (pos 0) (xor_signs ns nl ss ls)
  xor_signs_lost false true hs hl lost =
      xor-long_negative_lost ss ls hs.in_range hl.in_range len (nonzero ls hl) lost
  xor_signs_lost true false hs hl lost =
      xor-short_negative_lost ss ls hs.in_range hl.in_range len (nonzero ss hs) lost
  xor_signs_lost true true hs hl lost = absurd lost
  xor_signs_lost false false hs hl lost = absurd lost

pub AndLost-ne :
    (ss ls : List ℕ) (ns nl : Bool)
    → IsVerified (record { negative = ns; digits = ss })
    → IsVerified (record { negative = nl; digits = ls })
    → AndLost ns nl ss ls
    → and_ℤ (signed ns (value ss)) (signed nl (value ls)) ≢ pos 0
unfolding and_ℤ
AndLost-ne ss ls true true hs hl lost =
    rw (negative_is (value ss) (nonzero ss hs), negative_is (value ls) (nonzero ls hl)) (λ e. cc)
AndLost-ne ss ls true false hs hl lost = absurd lost
AndLost-ne ss ls false nl hs hl lost = absurd lost

pub XorLost-ne :
    (ss ls : List ℕ) (ns nl : Bool)
    → IsVerified (record { negative = ns; digits = ss })
    → IsVerified (record { negative = nl; digits = ls })
    → XorLost ns nl ss ls
    → xor_ℤ (signed ns (value ss)) (signed nl (value ls)) ≢ pos 0
unfolding xor_ℤ
XorLost-ne ss ls true false hs hl lost = rw (negative_is (value ss) (nonzero ss hs)) (λ e. cc)
XorLost-ne ss ls false true hs hl lost = rw (negative_is (value ls) (nonzero ls hl)) (λ e. cc)
XorLost-ne ss ls true true hs hl lost = absurd lost
XorLost-ne ss ls false false hs hl lost = absurd lost
