-- ===== src/Wire/Hundredths.antt =====
-- Floats that hold hundredths of full scale.
use phonepostmix.Base.{ℕ, ◌+◌, ◌*◌, ◌/◌, ◌≡◌, refl, Bool, false, arith, ltb, if◌then◌else◌}
use phonepostmix.Base.Int.{ℤ, pos, negsuc, pos_part, neg_part, sub_ℕ, Within}
use phonepostmix.Wire.{FloatOps}
use phonepostmix.Wire.Samples.{FloatLaws}

abbrev pub less : ℤ → ℤ → Bool
less a b = ltb (pos_part a + neg_part b) (pos_part b + neg_part a)

abbrev pub round_to : ℕ → ℤ → ℤ
round_to k z =
    if ltb 0 (neg_part z) then sub_ℕ 0 (neg_part z * k / 100) else pos (pos_part z * k / 100)

abbrev pub hundredths : FloatOps
hundredths = record {
  Float = ℤ;
  ltf = less;
  is_nan = λ x. false;
  minus_one = negsuc 99;
  zero_float = pos 0;
  one = pos 100;
  scale16 = round_to 32767;
  scale24 = round_to 8388607;
  bits = pos_part;
}

hundredths_range16 :
    (x : ℤ)
    → less x (negsuc 99) ≡ false
    → less (pos 100) x ≡ false
    → Within 32767 (round_to 32767 x)
hundredths_range16 (pos n) low high = ground arith
hundredths_range16 (negsuc n) low high = ground arith

hundredths_range24 :
    (x : ℤ)
    → less x (negsuc 99) ≡ false
    → less (pos 100) x ≡ false
    → Within 8388607 (round_to 8388607 x)
hundredths_range24 (pos n) low high = ground arith
hundredths_range24 (negsuc n) low high = ground arith

pub hundredths-FloatLaws : FloatLaws hundredths
hundredths-FloatLaws = record {
  minus_one_lt = refl;
  one_lt_minus_one = refl;
  one_lt = refl;
  minus_one_nan = refl;
  one_nan = refl;
  range16 = λ x nan low high. hundredths_range16 x low high;
  range24 = λ x nan low high. hundredths_range24 x low high;
}
