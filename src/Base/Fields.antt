-- ===== src/Base/Fields.antt =====
-- `|` of values whose bits do not meet is their sum, at every shift.
use Prim.Native.Nat.{
  ℕ, zero, suc, ◌+◌, ◌*◌, ◌/◌, ◌%◌, ◌^◌, ◌≤◌, ◌<◌, max, bit_or, digits, bit_or-bitwise,
}
use mathlib.Core.Path.{◌≡◌, refl, ap}
use native.Mathlib.Nat.{pow-suc}
use native.Mathlib.Numerals.{towards_suc}
use native.Mathlib.Omega.{arith}

-- Enough fuel for the digits of `a` gives one result.
or_digits : ℕ → ℕ → ℕ → ℕ
or_digits n a b = digits (λ y. y) max n a b

or_digits_enough : (n k a b : ℕ) → a ≤ n → a ≤ k → or_digits n a b ≡ or_digits k a b
unfolding or_digits
or_digits_enough zero zero a b p q = refl
or_digits_enough zero (suc k) zero b p q = refl
or_digits_enough (suc n) zero zero b p q = refl
or_digits_enough (suc n) (suc k) zero b p q = refl
or_digits_enough zero k (suc a) b p q = absurd (omega arith)
or_digits_enough (suc n) zero (suc a) b p q = absurd (omega arith)
or_digits_enough (suc n) (suc k) (suc a) b p q =
    let tail = or_digits_enough n k (suc a / 2) (b / 2) (omega arith) (omega arith) in
    ap (λ t. t * 2 + max (suc a % 2) (b % 2)) tail

zero-bit_or : (b : ℕ) → bit_or 0 b ≡ b
zero-bit_or b = bit_or-bitwise 0 b

-- The lowest digit of a disjunction.
bit_or_digit : (a b : ℕ) → bit_or a b ≡ 2 * bit_or (a / 2) (b / 2) + max (a % 2) (b % 2)
unfolding or_digits
bit_or_digit zero b = omega (arith, zero-bit_or b, zero-bit_or (b / 2))
bit_or_digit (suc a) b = omega (
  arith,
  bit_or-bitwise (suc a) b,
  bit_or-bitwise (suc a / 2) (b / 2),
  or_digits_enough a (suc a / 2) (suc a / 2) (b / 2) (omega arith) (omega arith),
)

shift_suc : (q k : ℕ) → q * 2 ^ suc k ≡ 2 * (q * 2 ^ k)
shift_suc q k = omega (arith, ap (λ (t : ℕ). q * t) (pow-suc 2 k))

-- `value |= q << k` adds, where `value` has no bit from `k` on.
pub bit_or-shifted : (k a q : ℕ) → a < 2 ^ k → bit_or a (q * 2 ^ k) ≡ a + q * 2 ^ k
bit_or-shifted zero zero q h = omega (arith, zero-bit_or (q * 2 ^ 0))
bit_or-shifted zero (suc a) q h = absurd (omega arith)
bit_or-shifted (suc k) a q h = ground (
  arith,
  bit_or_digit a (q * 2 ^ suc k),
  shift_suc q k,
  pow-suc 2 k,
  bit_or-shifted k (a / 2) q (omega (arith, pow-suc 2 k)),
)

bit_or-zero_fuel : (n a : ℕ) → a ≤ n → bit_or a 0 ≡ a
bit_or-zero_fuel n zero h = refl
bit_or-zero_fuel zero (suc a) h = absurd (omega arith)
bit_or-zero_fuel (suc n) (suc a) h =
    omega (arith, bit_or_digit (suc a) 0, bit_or-zero_fuel n (suc a / 2) (omega arith))

-- The same with the shifted value on the left, as in `(value << k) | a`.
pub shifted-bit_or : (k q a : ℕ) → a < 2 ^ k → bit_or (q * 2 ^ k) a ≡ q * 2 ^ k + a
shifted-bit_or zero q zero h = omega (arith, bit_or-zero_fuel (q * 2 ^ 0) (q * 2 ^ 0) (omega arith))
shifted-bit_or zero q (suc a) h = absurd (omega arith)
shifted-bit_or (suc k) q a h = ground (
  arith,
  bit_or_digit (q * 2 ^ suc k) a,
  shift_suc q k,
  pow-suc 2 k,
  shifted-bit_or k q (a / 2) (omega (arith, pow-suc 2 k)),
)

-- Eight bits more.
pub pow_byte : (i : ℕ) → 2 ^ (suc i * 8) ≡ 256 * 2 ^ (i * 8)
pow_byte i = rw (shape i) (simp towards_suc (omega arith))
  where
    shape : (j : ℕ) → suc j * 8 ≡ j * 8 + 8
    shape j = omega arith
