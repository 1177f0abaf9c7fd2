-- ===== src/Base/Int.antt =====
-- Signed integers over the native numbers, and the wrap-around of a 64-bit signed word.
use slay_push.Base.{ℕ, suc, ◌+◌, ◌-◌, ◌*◌, ◌%◌, Bool, if◌then◌else◌, ltb}

-- `negsuc n` is -(n + 1).
pub data ℤ : Type 0 where
  pos : ℕ → ℤ
  negsuc : ℕ → ℤ

abbrev pub pos_part : ℤ → ℕ
pos_part (pos n) = n
pos_part (negsuc n) = 0

abbrev pub neg_part : ℤ → ℕ
neg_part (pos n) = 0
neg_part (negsuc n) = suc n

abbrev pub ltb_ℤ : ℤ → ℤ → Bool
ltb_ℤ a b = ltb (pos_part a + neg_part b) (pos_part b + neg_part a)

-- The integer that a 64-bit pattern stands for.
abbrev pub signed64 : ℕ → ℤ
signed64 m = if ltb m 9223372036854775808 then pos m else negsuc (18446744073709551615 - m)

-- The bit pattern of an integer, modulo 2 ^ 64.
abbrev pub pattern64 : ℤ → ℕ
pattern64 (pos n) = n % 18446744073709551616
pattern64 (negsuc n) = 18446744073709551615 - n % 18446744073709551616

abbrev pub wrap64 : ℤ → ℤ
wrap64 a = signed64 (pattern64 a)

-- A multiple of an integer by a number, before it wraps.
abbrev pub scale : ℕ → ℤ → ℤ
scale k (pos n) = pos (k * n)
scale k (negsuc n) = if ltb 0 k then negsuc (k * suc n - 1) else pos 0

-- The difference of two numbers.
abbrev pub sub_nat : ℕ → ℕ → ℤ
sub_nat m n = if ltb m n then negsuc (n - m - 1) else pos (m - n)

infixl 60 ◌+ℤ◌
abbrev pub ◌+ℤ◌ : ℤ → ℤ → ℤ
a +ℤ b = sub_nat (pos_part a + pos_part b) (neg_part a + neg_part b)
