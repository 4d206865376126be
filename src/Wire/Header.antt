-- ===== src/Wire/Header.antt =====
-- `writeHeader` and `readHeader`.
use native.Mathlib.Nat.{mod-eq_of_lt, pow-le-pow_right, one-le-pow}
use phonepostmix.Base.{
  ℕ, zero, suc, ◌+◌, ◌*◌, ◌/◌, ◌%◌, ◌^◌, ◌≤◌, ◌<◌, ◌≡◌, refl, ◌∙◌, bit_or, true, false, arith, List,
  ◌∷◌, length, get_or, drop, take, ◌↔◌, bytes_eq,
}
use phonepostmix.Base.Fields.{bit_or-shifted, pow_byte}
use phonepostmix.Wire.{
  Format, pcm16, pcm24, float32, other, PacketInfo, magic, format_of_byte, byte_of_format,
  write_header, fields, read_header, read_little_endian, read_le_from,
}

-- The ranges of the C++ field types; an enumerator that is no named one is a byte from 3 on.
abbrev pub IsFormat : Format → Type 0
IsFormat (other n) = (3 ≤ n) × (n < 256)
IsFormat pcm16 = Unit {0}
IsFormat pcm24 = Unit {0}
IsFormat float32 = Unit {0}

pub record InRange (info : PacketInfo) : Type 0 where
  pub format_ok : IsFormat info.format
  pub channels_ok : info.channels < 2 ^ 8
  pub flags_ok : info.flags < 2 ^ 8
  pub sequence_ok : info.sequence < 2 ^ 32
  pub sample_rate_ok : info.sample_rate < 2 ^ 32
  pub frames_ok : info.frames < 2 ^ 16
  pub config_epoch_ok : info.config_epoch < 2 ^ 16
  pub sample_clock_ok : info.sample_clock < 2 ^ 64
  pub sender_time_ms_ok : info.sender_time_ms < 2 ^ 32

abbrev word16 : ℕ → List ℕ → List ℕ
word16 v r = (v / 2 ^ 0 % 256) ∷ (v / 2 ^ 8 % 256) ∷ r

abbrev word32 : ℕ → List ℕ → List ℕ
word32 v r = word16 v ((v / 2 ^ 16 % 256) ∷ (v / 2 ^ 24 % 256) ∷ r)

abbrev word64 : ℕ → List ℕ → List ℕ
word64 v r =
    word32 v ((v / 2 ^ 32 % 256) ∷ (v / 2 ^ 40 % 256) ∷ (v / 2 ^ 48 % 256) ∷ (v / 2 ^ 56 % 256) ∷ r)

-- The layout of the header, with what follows it.
abbrev pub layout : PacketInfo → List ℕ → List ℕ
layout info r =
    0x50
    ∷ 0x50
    ∷ 0x4d
    ∷ 0x58
    ∷ 1
    ∷ byte_of_format info.format
    ∷ info.channels
    ∷ info.flags
    ∷ word32 info.sequence (
        word32 info.sample_rate (
          word16 info.frames
            (word16 info.config_epoch (word64 info.sample_clock (word32 info.sender_time_ms r)))))

pub write_header-layout :
    (d : List ℕ) (info : PacketInfo) → 32 ≤ length d → write_header d info ≡ layout info (drop 32 d)
unfolding write_header
write_header-layout
      (a0 ∷ a1 ∷ a2 ∷ a3 ∷ a4 ∷ a5 ∷ a6 ∷ a7 ∷ a8 ∷ a9 ∷ a10 ∷ a11 ∷ a12 ∷ a13 ∷ a14 ∷ a15 ∷ b0 ∷ b1
        ∷ b2 ∷ b3 ∷ b4 ∷ b5 ∷ b6 ∷ b7 ∷ b8 ∷ b9 ∷ b10 ∷ b11 ∷ b12 ∷ b13 ∷ b14 ∷ b15 ∷ r)
      info h =
    refl
write_header-layout _ info h = absurd (omega arith)

-- One round of the reading loop: the value has no bit from `k` on, and the byte does not reach `w`.
or_round :
    (k w acc b : ℕ)
    → acc < 2 ^ k
    → b * 2 ^ k < 2 ^ w
    → bit_or acc (b * 2 ^ k % 2 ^ w) ≡ acc + b * 2 ^ k
or_round k w acc b l h = rw (mod-eq_of_lt h) (bit_or-shifted k acc b l)

-- The value of `n` bytes from `off + i` on, in the place that the loop gives them.
abbrev le_sum : ℕ → ℕ → List ℕ → ℕ → ℕ
le_sum zero i s off = 0
le_sum (suc n) i s off = get_or s (off + i) 0 * 2 ^ (i * 8) + le_sum n (suc i) s off

abbrev BytesAt : ℕ → ℕ → List ℕ → ℕ → Type 0
BytesAt zero i s off = Unit {0}
BytesAt (suc n) i s off = (get_or s (off + i) 0 < 256) × BytesAt n (suc i) s off

byte_fits : (b i size : ℕ) → b < 256 → i < size → b * 2 ^ (i * 8) < 2 ^ (size * 8)
byte_fits b i size hb hi =
    let grow : 2 ^ (suc i * 8) ≤ 2 ^ (size * 8) =
      pow-le-pow_right {n = 2} (omega arith) (omega arith) in
    grind (arith, grow, pow_byte i, one-le-pow (i * 8) 2)

sum_fits : (acc b i : ℕ) → acc < 2 ^ (i * 8) → b < 256 → acc + b * 2 ^ (i * 8) < 2 ^ (suc i * 8)
sum_fits acc b i l hb = grind (arith, pow_byte i)

read_le_from-sum :
    (n i size : ℕ) (s : List ℕ) (off acc : ℕ)
    → BytesAt n i s off
    → i + n ≤ size
    → acc < 2 ^ (i * 8)
    → read_le_from n i size s off acc ≡ acc + le_sum n i s off
unfolding read_le_from
read_le_from-sum zero i size s off acc byte h l = omega arith
read_le_from-sum (suc n) i size s off acc (b, bs) h l =
    let acc' : ℕ = acc + get_or s (off + i) 0 * 2 ^ (i * 8) in
    rw
      (or_round (i * 8) (size * 8) acc (get_or s (off + i) 0) l
        (byte_fits _ i size b (omega arith)))
      (read_le_from-sum n (suc i) size s off acc' bs (omega arith) (sum_fits acc _ i l b)
        ∙ omega arith)

-- The loop adds the bytes up, each in its place.
pub read_little_endian-sum :
    (n : ℕ) (s : List ℕ) (off : ℕ)
    → BytesAt n 0 s off
    → read_little_endian n s off ≡ le_sum n 0 s off
unfolding read_little_endian
read_little_endian-sum n s off byte =
    omega (arith, read_le_from-sum n 0 n s off 0 byte (omega arith) (omega arith))

format_of_byte-byte_of_format : (f : Format) → IsFormat f → format_of_byte (byte_of_format f) ≡ f
unfolding format_of_byte byte_of_format
format_of_byte-byte_of_format pcm16 h = refl
format_of_byte-byte_of_format pcm24 h = refl
format_of_byte-byte_of_format float32 h = refl
format_of_byte-byte_of_format (other zero) h = absurd (omega arith)
format_of_byte-byte_of_format (other (suc zero)) h = absurd (omega arith)
format_of_byte-byte_of_format (other (suc (suc zero))) h = absurd (omega arith)
format_of_byte-byte_of_format (other (suc (suc (suc n)))) h = refl

fields-layout : (info : PacketInfo) (r : List ℕ) → InRange info → fields (layout info r) ≡ info
unfolding fields
fields-layout info r h =
    rw
      (
        format_of_byte-byte_of_format info.format h.format_ok,
        read_little_endian-sum 4 (layout info r) 8 (omega arith),
        read_little_endian-sum 4 (layout info r) 12 (omega arith),
        read_little_endian-sum 2 (layout info r) 16 (omega arith),
        read_little_endian-sum 2 (layout info r) 18 (omega arith),
        read_little_endian-sum 8 (layout info r) 20 (omega arith),
        read_little_endian-sum 4 (layout info r) 28 (omega arith),
      )
      (ground arith)

pub read_header-layout :
    (info old : PacketInfo) (r : List ℕ)
    → InRange info
    → read_header (layout info r) old ≡ (true, info)
unfolding read_header
read_header-layout info old r v = rw (fields-layout info r v) (ground arith)

-- `readHeader` gives back every field that `writeHeader` wrote, whatever the buffer held before,
-- whatever `old` held, for every description whose fields fit their C++ types and every buffer of
-- 32 bytes or more; what stands behind the header is kept.
pub read_header-write_header :
    (d : List ℕ) (info old : PacketInfo)
    → 32 ≤ length d
    → InRange info
    → (read_header (write_header d info) old ≡ (true, info))
      × (drop 32 (write_header d info) ≡ drop 32 d)
read_header-write_header d info old h v =
    rw (write_header-layout d info h) (read_header-layout info old (drop 32 d) v, refl)

-- `readHeader` accepts a buffer exactly when it has 32 bytes or more, begins with the magic bytes
-- and has version 1; it leaves `info` alone where it refuses, and where it accepts the result does
-- not depend on what `info` held.
pub read_header_accepts :
    (s : List ℕ) (old : PacketInfo)
    → ((read_header s old).0 ≡ true
        ↔ (32 ≤ length s) × (bytes_eq (take 4 s) magic ≡ true) × (get_or s 4 0 ≡ 1))
      × ((read_header s old).0 ≡ false → (read_header s old).1 ≡ old)
      × ((read_header s old).0 ≡ true → (new : PacketInfo) → read_header s new ≡ read_header s old)
unfolding read_header
read_header_accepts s old = ground arith
