-- ===== src/Wire.antt =====
-- core/WirePacket.h and core/WirePacket.cpp: the 32-byte packet header and the sample formats.
-- A byte buffer is a list of numbers below 256; a write through a pointer is `set` at its offset.
pub mod Hundredths
pub mod Header
pub mod Samples
pub mod Clipping
mod Tests
use phonepostmix.Base.{
  ℕ, zero, suc, ◌+◌, ◌*◌, ◌/◌, ◌%◌, ◌^◌, ◌<◌, ◌≡◌, ◌≢◌, bit_or, Bool, true, false, not, ltb, ◌==◌,
  bytes_eq, if◌then◌else◌, List, [], ◌∷◌, length, get_or, set, take,
}
use phonepostmix.Base.Int.{ℤ, to_word, Within, pos, negsuc}

-- 'P', 'P', 'M', 'X'
abbrev pub magic : List ℕ
magic = 0x50 ∷ 0x50 ∷ 0x4d ∷ 0x58 ∷ []

abbrev pub protocol_version : ℕ
protocol_version = 1

abbrev pub header_bytes : ℕ
header_bytes = 32

-- `other` is a byte that no enumerator names: `static_cast<Format>` makes one from the wire.
pub data Format : Type 0 where
  pcm16 pcm24 float32 : Format
  other : ℕ → Format

unfoldable pub format_of_byte : ℕ → Format
format_of_byte zero = pcm16
format_of_byte (suc zero) = pcm24
format_of_byte (suc (suc zero)) = float32
format_of_byte (suc (suc (suc n))) = other (suc (suc (suc n)))

unfoldable pub byte_of_format : Format → ℕ
byte_of_format pcm16 = 0
byte_of_format pcm24 = 1
byte_of_format float32 = 2
byte_of_format (other n) = n

-- enum Flags
abbrev pub discontinuity : ℕ
discontinuity = 1

abbrev pub silence : ℕ
silence = 2

abbrev pub config_changed : ℕ
config_changed = 4

unfoldable pub bytes_per_sample : Format → ℕ
bytes_per_sample pcm16 = 2
bytes_per_sample pcm24 = 3
bytes_per_sample float32 = 4
bytes_per_sample (other n) = 4

-- The name as ASCII codes.
unfoldable pub format_name : Format → List ℕ
format_name pcm16 = b'p' ∷ b'c' ∷ b'm' ∷ b'1' ∷ b'6' ∷ []
format_name pcm24 = b'p' ∷ b'c' ∷ b'm' ∷ b'2' ∷ b'4' ∷ []
format_name float32 = b'f' ∷ b'l' ∷ b'o' ∷ b'a' ∷ b't' ∷ b'3' ∷ b'2' ∷ []
format_name (other n) = b'u' ∷ b'n' ∷ b'k' ∷ b'n' ∷ b'o' ∷ b'w' ∷ b'n' ∷ []

pub record PacketInfo : Type 0 where
  pub format : Format
  pub channels : ℕ
  pub flags : ℕ
  pub sequence : ℕ
  pub sample_rate : ℕ
  pub frames : ℕ
  pub config_epoch : ℕ
  pub sample_clock : ℕ
  pub sender_time_ms : ℕ

-- The default member values.
abbrev pub default_info : PacketInfo
default_info = record {
  format = pcm16;
  channels = 2;
  flags = 0;
  sequence = 0;
  sample_rate = 48000;
  frames = 512;
  config_epoch = 0;
  sample_clock = 0;
  sender_time_ms = 0;
}

unfoldable pub packet_size : PacketInfo → ℕ
unfolding bytes_per_sample
packet_size info = header_bytes + info.frames * info.channels * bytes_per_sample info.format

-- The rounds `i, i + 1, …` of the loop, `(value >> (i * 8)) & 0xff`.
unfoldable pub write_le_from : ℕ → ℕ → List ℕ → ℕ → ℕ → List ℕ
write_le_from zero i destination off value = destination
write_le_from (suc n) i destination off value =
    write_le_from n (suc i) (set destination (off + i) (value / 2 ^ (i * 8) % 256)) off value

-- writeLittleEndian<T> (destination + off, value), with `size` for sizeof (T).
unfoldable pub write_little_endian : ℕ → List ℕ → ℕ → ℕ → List ℕ
unfolding write_le_from
write_little_endian size destination off value = write_le_from size 0 destination off value

-- `value |= static_cast<T> (source[i]) << (i * 8)`, cut to the width of T.
unfoldable pub read_le_from : ℕ → ℕ → ℕ → List ℕ → ℕ → ℕ → ℕ
read_le_from zero i size source off value = value
read_le_from (suc n) i size source off value =
    read_le_from n (suc i) size source off
      (bit_or value (get_or source (off + i) 0 * 2 ^ (i * 8) % 2 ^ (size * 8)))

unfoldable pub read_little_endian : ℕ → List ℕ → ℕ → ℕ
unfolding read_le_from
read_little_endian size source off = read_le_from size 0 size source off 0

-- memcpy (destination + off, bytes, …)
unfoldable pub copy_bytes : List ℕ → ℕ → List ℕ → List ℕ
copy_bytes destination off [] = destination
copy_bytes destination off (b ∷ bytes) = copy_bytes (set destination off b) (suc off) bytes

unfoldable pub write_header : List ℕ → PacketInfo → List ℕ
unfolding write_little_endian copy_bytes byte_of_format
write_header destination info =
    let d0 = copy_bytes destination 0 magic in
    let d1 = set d0 4 protocol_version in
    let d2 = set d1 5 (byte_of_format info.format) in
    let d3 = set d2 6 info.channels in
    let d4 = set d3 7 info.flags in
    let d5 = write_little_endian 4 d4 8 info.sequence in
    let d6 = write_little_endian 4 d5 12 info.sample_rate in
    let d7 = write_little_endian 2 d6 16 info.frames in
    let d8 = write_little_endian 2 d7 18 info.config_epoch in
    let d9 = write_little_endian 8 d8 20 info.sample_clock in
    write_little_endian 4 d9 28 info.sender_time_ms

-- The fields that `read_header` takes from an accepted header.
unfoldable pub fields : List ℕ → PacketInfo
unfolding read_little_endian format_of_byte
fields source = record {
  format = format_of_byte (get_or source 5 0);
  channels = get_or source 6 0;
  flags = get_or source 7 0;
  sequence = read_little_endian 4 source 8;
  sample_rate = read_little_endian 4 source 12;
  frames = read_little_endian 2 source 16;
  config_epoch = read_little_endian 2 source 18;
  sample_clock = read_little_endian 8 source 20;
  sender_time_ms = read_little_endian 4 source 28;
}

-- The result and what `info` holds afterwards; `sourceSize` is the length of `source`, so that no
-- read that the guards let through is out of range.
unfoldable pub read_header : List ℕ → PacketInfo → Bool × PacketInfo
unfolding fields
read_header source info =
    if ltb (length source) header_bytes
    then (false, info)
    else if not (bytes_eq (take 4 source) magic)
    then (false, info)
    else if not (get_or source 4 0 == protocol_version)
    then (false, info)
    else (true, fields source)

-- What the header needs of the floating point arithmetic, which C++ supplies: the type float, its
-- order, and the roundings of x * 32767.0f and x * 8388607.0 to the nearest integer.
pub record FloatOps : Type 1 where
  pub Float : Type 0
  pub ltf : Float → Float → Bool
  pub is_nan : Float → Bool
  pub minus_one : Float
  pub zero_float : Float
  pub one : Float
  pub scale16 : Float → ℤ
  pub scale24 : Float → ℤ
  pub bits : Float → ℕ

module _ (F : FloatOps) where
  open F use {Float, ltf, minus_one, one, scale16, scale24, bits}

  -- std::clamp (x, -1.0f, 1.0f)
  unfoldable pub clamp : Float → Float
  clamp x = if ltf x minus_one then minus_one else if ltf one x then one else x

  unfoldable pub sample16 : Float → ℕ
  unfolding clamp
  sample16 x = to_word 16 (scale16 (clamp x))

  unfoldable pub sample24 : Float → ℕ
  unfolding clamp
  sample24 x = to_word 32 (scale24 (clamp x))

  -- One round of each loop of `writeSamples`, at the offset of its sample.
  unfoldable pub write_sample : Format → List ℕ → ℕ → Float → List ℕ
  unfolding sample16 sample24 write_little_endian
  write_sample pcm16 destination off x = write_little_endian 2 destination off (sample16 x)
  write_sample pcm24 destination off x =
      let b = sample24 x in
      let d0 = set destination off (b % 256) in
      let d1 = set d0 (off + 1) (b / 2 ^ 8 % 256) in set d1 (off + 2) (b / 2 ^ 16 % 256)
  write_sample float32 destination off x = write_little_endian 4 destination off (bits x)
  write_sample (other n) destination off x = destination

  -- The loop over the samples; `base` is the offset of `destination` in its buffer.
  unfoldable pub write_samples_from : Format → List ℕ → ℕ → ℕ → List Float → List ℕ
  unfolding write_sample bytes_per_sample
  write_samples_from f destination base i [] = destination
  write_samples_from f destination base i (x ∷ xs) =
      write_samples_from f (write_sample f destination (base + i * bytes_per_sample f) x) base
        (suc i) xs

  unfoldable pub write_samples : List ℕ → ℕ → List Float → Format → List ℕ
  unfolding write_samples_from
  write_samples destination base interleaved f = write_samples_from f destination base 0 interleaved
