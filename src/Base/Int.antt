-- ===== src/Base/Int.antt =====
-- Signed integers over the native numbers, and their two's complement patterns.
use Prim.Native.Nat.{ℕ, suc, ◌+◌, ◌-◌, ◌*◌, ◌%◌, ◌^◌, ◌≤◌}
use mathlib.Core.Path.{◌≡◌}
use native.Mathlib.Omega.{arith}
use phonepostmix.Base.Tests.{ltb, leb, if◌then◌else◌}

-- `negsuc n` is -(n + 1).
pub data ℤ : Type 0 where
  pos : ℕ → ℤ
  negsuc : ℕ → ℤ

abbrev pub pos_part : ℤ → ℕ
pos_part (pos n) = n
pos_part (negsuc n) = 0

abbrev pub neg_part : ℤ → ℕ
neg_part (pos n) = 0
neg_part (negsuc n) = suc n

-- a - b, as an integer.
abbrev pub sub_ℕ : ℕ → ℕ → ℤ
sub_ℕ a b = if leb b a then pos (a - b) else negsuc (b - a - 1)

infixl 70 ◌*ℤ◌
infix 50 ◌≤ℤ◌
unfoldable pub ◌*ℤ◌ : ℤ → ℤ → ℤ
a *ℤ b =
    sub_ℕ (pos_part a * pos_part b + neg_part a * neg_part b)
      (pos_part a * neg_part b + neg_part a * pos_part b)

abbrev pub ◌≤ℤ◌ : ℤ → ℤ → Type 0
a ≤ℤ b = pos_part a + neg_part b ≤ pos_part b + neg_part a

-- The low w bits of z as an unsigned number: a conversion to uintW_t.
abbrev pub to_word : ℕ → ℤ → ℕ
to_word w (pos n) = n % 2 ^ w
to_word w (negsuc n) = 2 ^ w - 1 - n % 2 ^ w

-- The number that the low w bits stand for in two's complement.
abbrev pub of_word : ℕ → ℕ → ℤ
of_word w b = if ltb b (2 ^ (w - 1)) then pos b else negsuc (2 ^ w - 1 - b)

-- -n ≤ z ≤ n
abbrev pub Within : ℕ → ℤ → Type 0
Within n z = (pos_part z ≤ n) × (neg_part z ≤ n)

pub of_word-to_word16 : (z : ℤ) → Within 32767 z → of_word 16 (to_word 16 z) ≡ z
of_word-to_word16 (pos n) h = ground arith
of_word-to_word16 (negsuc n) h = ground arith

pub of_word-to_word24 : (z : ℤ) → Within 8388607 z → of_word 24 (to_word 32 z % 2 ^ 24) ≡ z
of_word-to_word24 (pos n) h = ground arith
of_word-to_word24 (negsuc n) h = ground arith
