-- ===== src/Large/Bitwise/Twos.antt =====
-- The bit operations of the integers in two's complement. `negsuc n` is -(n + 1), whose bits are
-- those of `n`, complemented.
use primordialsoup.Base.{bit_and, bit_or, bit_xor}
use primordialsoup.Base.Int.{ℤ, pos, negsuc}
use primordialsoup.Base.Bits.Split.{bit_and_not}

unfoldable pub and_ℤ : ℤ → ℤ → ℤ
and_ℤ (pos a) (pos b) = pos (bit_and a b)
and_ℤ (pos a) (negsuc b) = pos (bit_and_not a b)
and_ℤ (negsuc a) (pos b) = pos (bit_and_not b a)
and_ℤ (negsuc a) (negsuc b) = negsuc (bit_or a b)

unfoldable pub or_ℤ : ℤ → ℤ → ℤ
or_ℤ (pos a) (pos b) = pos (bit_or a b)
or_ℤ (pos a) (negsuc b) = negsuc (bit_and_not b a)
or_ℤ (negsuc a) (pos b) = negsuc (bit_and_not a b)
or_ℤ (negsuc a) (negsuc b) = negsuc (bit_and a b)

unfoldable pub xor_ℤ : ℤ → ℤ → ℤ
xor_ℤ (pos a) (pos b) = pos (bit_xor a b)
xor_ℤ (pos a) (negsuc b) = negsuc (bit_xor a b)
xor_ℤ (negsuc a) (pos b) = negsuc (bit_xor a b)
xor_ℤ (negsuc a) (negsuc b) = pos (bit_xor a b)
