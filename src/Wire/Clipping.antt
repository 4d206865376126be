-- ===== src/Wire/Clipping.antt =====
-- `writeSamples` with the integer formats: what a sample's bytes decode to.
use phonepostmix.Base.{
  ℕ, ◌+◌, ◌*◌, ◌/◌, ◌%◌, ◌^◌, ◌≤◌, ◌≡◌, ap, ◌∙◌, true, false, arith, List, ◌∷◌, ◌++◌, length,
  length-append, append_assoc, drop, drop-append, get_or,
}
use phonepostmix.Base.Int.{
  ℤ, pos, negsuc, to_word, of_word, Within, of_word-to_word16, of_word-to_word24,
}
use phonepostmix.Wire.{
  Format, pcm16, pcm24, float32, other, bytes_per_sample, FloatOps, clamp, sample16, sample24,
  write_samples,
}
use phonepostmix.Wire.Samples.{
  FloatLaws, IsNamed, sample_bytes, encode, encode-append, length-encode, write_samples_lem,
}

-- The formats whose samples are integers.
abbrev pub IsInteger : Format → Type 0
IsInteger (other n) = ⊥
IsInteger pcm16 = Unit {0}
IsInteger pcm24 = Unit {0}
IsInteger float32 = ⊥

two_bytes : (z : ℤ) → to_word 16 z % 256 + to_word 16 z / 256 % 256 * 256 ≡ to_word 16 z
two_bytes (pos n) = omega arith
two_bytes (negsuc n) = omega arith

three_bytes : (w : ℕ) → w % 256 + w / 256 % 256 * 256 + w / 65536 % 256 * 65536 ≡ w % 2 ^ 24
three_bytes w = omega arith

-- The integer that a sample's bytes stand for: two's complement, lowest byte first.
unfoldable decode16 : List ℕ → ℤ
decode16 s = of_word 16 (get_or s 0 0 + get_or s 1 0 * 256)

unfoldable decode24 : List ℕ → ℤ
decode24 s = of_word 24 (get_or s 0 0 + get_or s 1 0 * 256 + get_or s 2 0 * 65536)

-- The sample that stands at the head of `bytes`, and the integer of full scale.
unfoldable pub decode : Format → List ℕ → ℤ
unfolding decode16 decode24
decode pcm16 bytes = decode16 bytes
decode pcm24 bytes = decode24 bytes
decode float32 bytes = pos 0
decode (other n) bytes = pos 0

unfoldable pub full_scale : Format → ℕ
full_scale pcm16 = 32767
full_scale pcm24 = 8388607
full_scale float32 = 0
full_scale (other n) = 0

module _ (F : FloatOps) where
  open F use {Float, scale16, scale24}

  -- The rounding of a sample to the integers of the format.
  unfoldable pub scale : Format → Float → ℤ
  scale pcm16 x = scale16 x
  scale pcm24 x = scale24 x
  scale float32 x = pos 0
  scale (other n) x = pos 0

  sample_place :
      (f : Format) (before after : List Float) (x : Float) (pre ys : List ℕ)
      → IsNamed f
      → length (before ++ x ∷ after) * bytes_per_sample f ≤ length ys
      → (rest : List ℕ) × (drop
            (length pre + length before * bytes_per_sample f)
            (write_samples F (pre ++ ys) (length pre) (before ++ x ∷ after) f)
          ≡ sample_bytes F f x ++ rest)
  unfolding encode
  sample_place f before after x pre ys named room =
      let b = encode F f before in
      let s = sample_bytes F f x in
      let rest = encode F f after ++ drop (length (before ++ x ∷ after) * bytes_per_sample f) ys in
      (
        rest,
        rw
            (
              write_samples_lem F f (before ++ x ∷ after) pre ys named room,
              encode-append F f before (x ∷ after),
              append_assoc b (s ++ encode F f after)
                  (drop (length (before ++ x ∷ after) * bytes_per_sample f) ys),
              append_assoc s (encode F f after)
                  (drop (length (before ++ x ∷ after) * bytes_per_sample f) ys),
              ← append_assoc pre b (s ++ rest),
            )
            (drop-append (pre ++ b) (s ++ rest) _
              (omega (arith, length-append pre b, length-encode F f before named))),
      )

  module _ (laws : FloatLaws F) where
    decode-bytes16 :
        (x : Float)
        → Within 32767 (F.scale16 (clamp F x))
        → decode16 (sample_bytes F pcm16 x) ≡ F.scale16 (clamp F x)
    unfolding sample_bytes decode16 sample16
    decode-bytes16 x h =
        ap (of_word 16) (two_bytes (F.scale16 (clamp F x)))
        ∙ of_word-to_word16 (F.scale16 (clamp F x)) h

    decode-bytes24 :
        (x : Float)
        → Within 8388607 (F.scale24 (clamp F x))
        → decode24 (sample_bytes F pcm24 x) ≡ F.scale24 (clamp F x)
    unfolding sample_bytes decode24 sample24
    decode-bytes24 x h =
        ap (of_word 24) (three_bytes (to_word 32 (F.scale24 (clamp F x))))
        ∙ of_word-to_word24 (F.scale24 (clamp F x)) h

    clamp_range :
        (x : Float)
        → F.is_nan x ≡ false
        → (F.is_nan (clamp F x) ≡ false)
          × (F.ltf (clamp F x) F.minus_one ≡ false)
          × (F.ltf F.one (clamp F x) ≡ false)
    unfolding clamp
    clamp_range x h = ground (
      arith, laws.minus_one_lt, laws.one_lt_minus_one, laws.one_lt, laws.minus_one_nan,
      laws.one_nan,
    )

    -- What a sample becomes: the rounding of the clipped sample, which lies within full scale.
    pub record Clips (f : Format) (x : Float) (z : ℤ) : Type 0 where
      pub rounded : z ≡ scale f (clamp F x)
      pub within : Within (full_scale f) z
      pub below : F.ltf x F.minus_one ≡ true → z ≡ scale f F.minus_one
      pub above : F.ltf x F.minus_one ≡ false → F.ltf F.one x ≡ true → z ≡ scale f F.one
      pub between : F.ltf x F.minus_one ≡ false → F.ltf F.one x ≡ false → z ≡ scale f x

    clipped :
        (f : Format) (x : Float) (z : ℤ)
        → z ≡ scale f (clamp F x)
        → Within (full_scale f) z
        → Clips f x z
    unfolding clamp
    clipped f x z e within = record {
      rounded = e;
      within = within;
      below = λ low. e ∙ simp low;
      above = λ low high. e ∙ simp (low, high);
      between = λ low high. e ∙ simp (low, high);
    }

    decodes :
        (f : Format) (x : Float) (rest : List ℕ)
        → IsInteger f
        → F.is_nan x ≡ false
        → Clips f x (decode f (sample_bytes F f x ++ rest))
    unfolding decode decode16 decode24 sample_bytes full_scale scale
    decodes pcm16 x rest whole h =
        let (nan, low, high) = clamp_range x h in
        let w = laws.range16 (clamp F x) nan low high in
        clipped pcm16 x _ (decode-bytes16 x w) (rw (decode-bytes16 x w) w)
    decodes pcm24 x rest whole h =
        let (nan, low, high) = clamp_range x h in
        let w = laws.range24 (clamp F x) nan low high in
        clipped pcm24 x _ (decode-bytes24 x w) (rw (decode-bytes24 x w) w)
    decodes float32 x rest whole h = elim whole [ ]
    decodes (other n) x rest whole h = elim whole [ ]

    IsInteger-IsNamed : (f : Format) → IsInteger f → IsNamed f
    IsInteger-IsNamed pcm16 whole = tt
    IsInteger-IsNamed pcm24 whole = tt
    IsInteger-IsNamed float32 whole = elim whole [ ]
    IsInteger-IsNamed (other n) whole = elim whole [ ]

    -- Where the buffer has room for the samples, what `writeSamples` puts at the place of a sample that
    -- is a number decodes, in either integer format, to the rounding of the clipped sample: within full
    -- scale, that of 1 above 1, that of -1 below -1, and that of the sample itself between them.
    pub write_samples-Clips :
        (f : Format) (before after : List Float) (x : Float) (pre ys : List ℕ)
        → IsInteger f
        → F.is_nan x ≡ false
        → length (before ++ x ∷ after) * bytes_per_sample f ≤ length ys
        → let out = write_samples F (pre ++ ys) (length pre) (before ++ x ∷ after) f in
          Clips f x (decode f (drop (length pre + length before * bytes_per_sample f) out))
    write_samples-Clips f before after x pre ys whole h room =
        let (rest, e) = sample_place f before after x pre ys (IsInteger-IsNamed f whole) room in
        rw e (decodes f x rest whole h)
