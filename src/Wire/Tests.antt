-- ===== src/Wire/Tests.antt =====
-- The wire format at concrete packets.
use phonepostmix.Base.{◌+◌, ◌^◌, ◌≡◌, refl, true, arith, [], ◌∷◌, replicate, drop, take}
use phonepostmix.Base.Int.{pos, negsuc}
use phonepostmix.Wire.{
  pcm16, pcm24, bytes_per_sample, PacketInfo, default_info, write_header, read_header,
  write_samples, packet_size,
}
use phonepostmix.Wire.Hundredths.{hundredths, hundredths-FloatLaws}
use phonepostmix.Wire.Header.{InRange, read_header-write_header}
use phonepostmix.Wire.Clipping.{Clips, decode, write_samples-Clips}

abbrev a_packet : PacketInfo
a_packet = record default_info { format = pcm24; sequence = 0x01020304; sample_clock = 2 ^ 40 + 7 }

a_packet-InRange : InRange a_packet
a_packet-InRange = omega arith

header_start :
    take 12 (write_header (replicate 34 9) a_packet)
    ≡ 0x50 ∷ 0x50 ∷ 0x4d ∷ 0x58 ∷ 1 ∷ 1 ∷ 2 ∷ 0 ∷ 4 ∷ 3 ∷ 2 ∷ 1 ∷ []
unfolding write_header
header_start = refl

a_packet_size : packet_size a_packet ≡ 3104
unfolding packet_size
a_packet_size = refl

read_header-write_header_example :
    (read_header (write_header (replicate 34 9) a_packet) default_info ≡ (true, a_packet))
    × (drop 32 (write_header (replicate 34 9) a_packet) ≡ 9 ∷ 9 ∷ [])
read_header-write_header_example =
    read_header-write_header (replicate 34 9) a_packet default_info (omega arith) a_packet-InRange

overdriven :
    write_samples hundredths (replicate 6 0) 1 (pos 250 ∷ negsuc 249 ∷ []) pcm16
    ≡ 0 ∷ 0xff ∷ 0x7f ∷ 0x01 ∷ 0x80 ∷ 0 ∷ []
unfolding write_samples
overdriven = refl

-- The second of three samples, too low, in 24 bits behind a byte that stays.
write_samples-Clips_example :
    let xs = pos 250 ∷ negsuc 249 ∷ pos 50 ∷ [] in
    let out = write_samples hundredths (7 ∷ replicate 9 0) 1 xs pcm24 in
    Clips hundredths hundredths-FloatLaws pcm24 (negsuc 249) (decode pcm24 (drop 4 out))
unfolding bytes_per_sample
write_samples-Clips_example =
    write_samples-Clips hundredths hundredths-FloatLaws pcm24 (pos 250 ∷ []) (pos 50 ∷ [])
      (negsuc 249) (7 ∷ []) (replicate 9 0) tt refl (omega arith)
