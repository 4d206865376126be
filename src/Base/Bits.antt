-- ===== src/Base/Bits.antt =====
-- Masks and xor on bytes as arithmetic; each fact is a table checked by evaluation.
use Prim.Native.Nat.{ℕ, zero, suc, ◌+◌, ◌*◌, ◌/◌, ◌%◌, ◌<◌, bit_and, bit_or, bit_xor}
use mathlib.Core.Path.{◌≡◌, refl}
use mathlib.Core.Bool.{Bool, true, false, ◌&&◌}
use native.Mathlib.Omega.{arith}
use phonepostmix.Base.Tests.{◌==◌, ltb, ==_iff, if◌then◌else◌}

-- A test that every byte up to `top` passes, read off by running it.
passes : (ℕ → Bool) → ℕ → Bool
passes test zero = true
passes test (suc top) = if test top then passes test top else false

pass_at :
    (test : ℕ → Bool) {top : ℕ} (byte : ℕ) → byte < top → passes test top ≡ true → test byte ≡ true
unfolding passes
pass_at test {top = zero} byte small run = absurd (omega arith)
pass_at test {top = suc top} byte small run = ground (arith, pass_at test {top = top} byte)

low7_table : passes (λ x. bit_and x 0x7f == x % 128) 256 ≡ true
unfolding passes
low7_table = refl

pub bit_and-low7 : (x : ℕ) → x < 256 → bit_and x 0x7f ≡ x % 128
bit_and-low7 x h = (==_iff _ _).0 (pass_at _ x h low7_table)

low4_table : passes (λ x. bit_and x 0x0f == x % 16) 256 ≡ true
unfolding passes
low4_table = refl

pub bit_and-low4 : (x : ℕ) → x < 256 → bit_and x 0x0f ≡ x % 16
bit_and-low4 x h = (==_iff _ _).0 (pass_at _ x h low4_table)

top_table : passes (λ x. bit_and x 0x80 == x / 128 * 128) 256 ≡ true
unfolding passes
top_table = refl

pub bit_and-top : (x : ℕ) → x < 256 → bit_and x 0x80 ≡ x / 128 * 128
bit_and-top x h = (==_iff _ _).0 (pass_at _ x h top_table)

bit3_table : passes (λ x. bit_and x 0x08 == x / 8 % 2 * 8) 256 ≡ true
unfolding passes
bit3_table = refl

pub bit_and-bit3 : (x : ℕ) → x < 256 → bit_and x 0x08 ≡ x / 8 % 2 * 8
bit_and-bit3 x h = (==_iff _ _).0 (pass_at _ x h bit3_table)

set_top_table : passes (λ x. bit_or 0x80 x == 128 + x) 128 ≡ true
unfolding passes
set_top_table = refl

pub bit_or-top : (x : ℕ) → x < 128 → bit_or 0x80 x ≡ 128 + x
bit_or-top x h = (==_iff _ _).0 (pass_at _ x h set_top_table)

xor_row : ℕ → Bool
xor_row m = passes (λ x. (bit_xor (bit_xor x m) m == x) && ltb (bit_xor x m) 256) 256

xor_table : passes xor_row 256 ≡ true
unfolding passes xor_row
xor_table = refl

xor_entry :
    (x m : ℕ) → x < 256 → m < 256 → ((bit_xor (bit_xor x m) m == x) && ltb (bit_xor x m) 256) ≡ true
unfolding xor_row
xor_entry x m hx hm = pass_at _ x hx (pass_at xor_row m hm xor_table)

-- Masking twice with one byte gives the byte back.
pub bit_xor_twice : (x m : ℕ) → x < 256 → m < 256 → bit_xor (bit_xor x m) m ≡ x
bit_xor_twice x m hx hm = ground (arith, xor_entry x m)

pub bit_xor-lt : (x m : ℕ) → x < 256 → m < 256 → bit_xor x m < 256
bit_xor-lt x m hx hm = ground (arith, xor_entry x m)

or_row : ℕ → Bool
or_row m = passes (λ x. ltb (bit_or x m) 256) 256

flags_table : (or_row 2 && (or_row 5 && or_row 7)) ≡ true
unfolding passes or_row
flags_table = refl

-- The packet flags stay in their byte.
pub bit_or_flags-lt : (x : ℕ) → x < 256 → (bit_or x 2 < 256) × (bit_or x 5 < 256)
unfolding or_row
bit_or_flags-lt x h = ground (
  arith,
  flags_table,
  pass_at (λ y. ltb (bit_or y 2) 256) x h,
  pass_at (λ y. ltb (bit_or y 5) 256) x h,
)
