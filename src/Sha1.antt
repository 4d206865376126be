-- ===== src/Sha1.antt =====
-- core/Sha1.h: SHA-1 over a stream of bytes. A 32-bit word is a number below 2 ^ 32. The loop of
-- `update` has the bytes that are left as fuel, since every turn takes one or more; the loop of
-- `finish` has 64, since every turn fills one more of the block's 64 bytes.
pub mod Stream
pub mod Padding
mod Tests
use phonepostmix.Base.{
  ℕ, zero, suc, ◌+◌, ◌-◌, ◌*◌, ◌/◌, ◌%◌, ◌^◌, min, bit_and, bit_or, bit_xor, Bool, true, false, ltb,
  ◌==◌, if◌then◌else◌, List, [], ◌∷◌, ◌++◌, length, get_or, set, take, drop, replicate,
}
use phonepostmix.Wire.{copy_bytes}

-- `state[0]` to `state[4]`, and the working variables of a block.
pub record Words : Type 0 where
  pub a : ℕ
  pub b : ℕ
  pub c : ℕ
  pub d : ℕ
  pub e : ℕ

pub record Sha1 : Type 0 where
  pub state : Words
  pub buffer : List ℕ
  pub buffer_used : ℕ
  pub bit_count : ℕ

abbrev pub initial : Words
initial = record { a = 0x67452301; b = 0xefcdab89; c = 0x98badcfe; d = 0x10325476; e = 0xc3d2e1f0 }

-- The buffer keeps what it held.
abbrev pub reset : Sha1 → Sha1
reset s = record s { state = initial; bit_count = 0; buffer_used = 0 }

abbrev pub new_sha1 : Sha1
new_sha1 = record { state = initial; buffer = replicate 64 0; buffer_used = 0; bit_count = 0 }

unfoldable pub rotl : ℕ → ℕ → ℕ
rotl v n = bit_or (v * 2 ^ n % 2 ^ 32) (v / 2 ^ (32 - n))

-- ~v on 32 bits
abbrev complement : ℕ → ℕ
complement v = 2 ^ 32 - 1 - v

-- w[i] for i below 16.
unfoldable pub load_words : ℕ → List ℕ → List ℕ
load_words zero block = []
load_words (suc n) block =
    bit_or
      (bit_or (bit_or (get_or block 0 0 * 2 ^ 24) (get_or block 1 0 * 2 ^ 16))
        (get_or block 2 0 * 2 ^ 8))
      (get_or block 3 0)
    ∷ load_words n (drop 4 block)

-- The words from `i` on, for `n` of them.
unfoldable pub extend_words : ℕ → ℕ → List ℕ → List ℕ
unfolding rotl
extend_words zero i w = w
extend_words (suc n) i w =
    let at : ℕ → ℕ = λ k. get_or w (i - k) 0 in
    extend_words n (suc i)
      (w ++ rotl (bit_xor (bit_xor (bit_xor (at 3) (at 8)) (at 14)) (at 16)) 1 ∷ [])

-- f and k of round `i`.
unfoldable pub mix : ℕ → Words → ℕ × ℕ
mix i v =
    if ltb i 20
    then (bit_or (bit_and v.b v.c) (bit_and (complement v.b) v.d), 0x5a827999)
    else if ltb i 40
    then (bit_xor (bit_xor v.b v.c) v.d, 0x6ed9eba1)
    else if ltb i 60
    then (bit_or (bit_or (bit_and v.b v.c) (bit_and v.b v.d)) (bit_and v.c v.d), 0x8f1bbcdc)
    else (bit_xor (bit_xor v.b v.c) v.d, 0xca62c1d6)

-- The rounds from `i` on, over the words that are left.
unfoldable pub rounds : ℕ → List ℕ → Words → Words
unfolding rotl mix
rounds i [] v = v
rounds i (w ∷ ws) v =
    let (f, k) = mix i v in
    rounds (suc i) ws (record {
      a = (rotl v.a 5 + f + v.e + k + w) % 2 ^ 32;
      b = v.a;
      c = rotl v.b 30;
      d = v.c;
      e = v.d;
    })

unfoldable pub process_block : List ℕ → Words → Words
unfolding load_words extend_words rounds
process_block block s =
    let v = rounds 0 (extend_words 64 16 (load_words 16 block)) s in
    record {
      a = (s.a + v.a) % 2 ^ 32;
      b = (s.b + v.b) % 2 ^ 32;
      c = (s.c + v.c) % 2 ^ 32;
      d = (s.d + v.d) % 2 ^ 32;
      e = (s.e + v.e) % 2 ^ 32;
    }

-- The end of a turn of the loop in `update`: a full buffer is processed.
unfoldable pub flush : Sha1 → Sha1
flush s =
    if s.buffer_used == 64
    then record s { state = process_block s.buffer s.state; buffer_used = 0 }
    else s

unfoldable pub update_loop : ℕ → Sha1 → List ℕ → Sha1
unfolding flush
update_loop zero s bytes = s
update_loop (suc fuel) s bytes =
    let n = min (length bytes) (64 - s.buffer_used) in
    let filled = record s {
      buffer = copy_bytes s.buffer s.buffer_used (take n bytes);
      buffer_used = s.buffer_used + n;
    } in
    let rest = update_loop fuel (flush filled) (drop n bytes) in
    if length bytes == 0 then s else rest

unfoldable pub update : Sha1 → List ℕ → Sha1
unfolding update_loop
update s bytes =
    update_loop (length bytes) (record s { bit_count = (s.bit_count + length bytes * 8) % 2 ^ 64 })
      bytes

-- `while (bufferUsed != 56) update (&zero, 1)`
unfoldable pub pad_zeros : ℕ → Sha1 → Sha1
unfolding update
pad_zeros zero s = s
pad_zeros (suc fuel) s =
    let rest = pad_zeros fuel (update s (0 ∷ [])) in if s.buffer_used == 56 then s else rest

-- The `n` bytes of `v` from the most significant one on.
unfoldable pub big_endian : ℕ → ℕ → List ℕ
big_endian zero v = []
big_endian (suc n) v = v / 2 ^ (n * 8) % 256 ∷ big_endian n v

unfoldable pub digest : Words → List ℕ
unfolding big_endian
digest s =
    big_endian 4 s.a ++ big_endian 4 s.b ++ big_endian 4 s.c ++ big_endian 4 s.d ++ big_endian 4 s.e

unfoldable pub finish : Sha1 → Sha1 × List ℕ
unfolding update pad_zeros digest
finish s =
    let padded = pad_zeros 64 (update s (0x80 ∷ [])) in
    let done = update padded (big_endian 8 s.bit_count) in (reset done, digest done.state)

unfoldable pub hash : List ℕ → List ℕ
unfolding update finish
hash m = (finish (update new_sha1 m)).1
