-- ===== src/WebSocket/Prefix.antt =====
-- What the unread bytes begin with does not change when more bytes come behind them.
use phonepostmix.Base.{
  ℕ, zero, suc, ◌+◌, ◌*◌, ◌^◌, ◌%◌, ◌≤◌, ◌<◌, ◌≡◌, refl, sym, ap, ◌∙◌, subst, arith, Bool, true,
  false, ltb, Option, none, some, List, ◌++◌, length, length-append, length-drop, get_or,
  get_or-append_of_lt, take, drop, take-append_of_le, drop-append_of_le, bit_or, if◌then◌else◌,
  ltb→le,
}
use phonepostmix.WebSocket.{
  read_length, extended_size, Decoded, short, bad, one, decode_frame, decode_body, decode_sized,
}

-- The result `d` stands, unless it was that bytes are missing.
abbrev pub Stands : Decoded → Decoded → Type 0
Stands short d = Unit {0}
Stands (bad message) d = d ≡ bad message
Stands (one fin op payload total) d = d ≡ one fin op payload total

abbrev StandsSize : Option (ℕ × ℕ) → Option (ℕ × ℕ) → Type 0
StandsSize none s = Unit {0}
StandsSize (some x) s = s ≡ some x

module _ (u b : List ℕ) where
  byte-append : (i : ℕ) → i < length u → get_or (u ++ b) i 0 ≡ get_or u i 0
  byte-append i h = get_or-append_of_lt u b i 0 h

  read_length-append :
      (rounds i size : ℕ)
      → 2 + i + rounds ≤ length u
      → read_length rounds i (u ++ b) size ≡ read_length rounds i u size
  unfolding read_length
  read_length-append zero i size h = refl
  read_length-append (suc rounds) i size h =
      ap (λ x. read_length rounds (suc i) (u ++ b) (bit_or (size * 2 ^ 8 % 2 ^ 64) x))
        (byte-append (2 + i) (omega (arith, h)))
      ∙ read_length-append rounds (suc i) (bit_or (size * 2 ^ 8 % 2 ^ 64) (get_or u (2 + i) 0))
          (omega (arith, h))

  extended_size-append : 2 ≤ length u → StandsSize (extended_size u) (extended_size (u ++ b))
  unfolding extended_size
  extended_size-append h = ground (
    arith,
    length-append u b,
    byte-append 1,
    byte-append 2,
    byte-append 3,
    read_length-append 8 0 0,
  )

  slice-append :
      (from n : ℕ) → from + n ≤ length u → take n (drop from (u ++ b)) ≡ take n (drop from u)
  slice-append from n h =
      ap (take n) (drop-append_of_le from u b (omega (arith, h)))
      ∙ take-append_of_le n (drop from u) b (omega (arith, h, length-drop from u))

  decode_body-append :
      (size mask_offset : ℕ)
      → 2 ≤ length u
      → Stands (decode_body u size mask_offset) (decode_body (u ++ b) size mask_offset)
  unfolding decode_body
  decode_body-append size mask_offset h = ground (
    arith,
    length-append u b,
    byte-append 0,
    slice-append mask_offset 4,
    slice-append (mask_offset + 4) size,
  )

  decode_sized-append :
      (limit : ℕ) (s t : Option (ℕ × ℕ))
      → 2 ≤ length u
      → StandsSize s t
      → Stands (decode_sized limit u s) (decode_sized limit (u ++ b) t)
  unfolding decode_sized
  decode_sized-append limit none t h same = tt
  decode_sized-append limit (some (size, header)) t h same =
      subst
        (λ x. Stands (decode_sized limit u (some (size, header))) (decode_sized limit (u ++ b) x))
        (sym same) (ground (arith, byte-append 1, decode_body-append size header h))

  -- A whole frame, and one that is refused, are read the same with more bytes behind them.
  pub decode_frame-append :
      (limit : ℕ) → Stands (decode_frame limit u) (decode_frame limit (u ++ b))
  unfolding decode_frame
  decode_frame-append limit =
      guarded (ltb (length u) 2) (ltb (length (u ++ b)) 2) (decode_sized limit u (extended_size u))
        (decode_sized limit (u ++ b) (extended_size (u ++ b)))
        (λ enough. (
          ground (arith, enough, length-append u b),
          decode_sized-append limit (extended_size u) (extended_size (u ++ b)) (ltb→le _ _ enough)
              (extended_size-append (ltb→le _ _ enough)),
        ))
    where
      guarded :
          (x y : Bool) (d e : Decoded)
          → (x ≡ false → (y ≡ false) × Stands d e)
          → Stands (if x then short else d) (if y then short else e)
      guarded true y d e h = tt
      guarded false true d e h = absurd (let k = (h refl).0 in cc)
      guarded false false d e h = (h refl).1
