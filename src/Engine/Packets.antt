-- ===== src/Engine/Packets.antt =====
-- `sendPacket`: what goes on the wire.
use phonepostmix.Base.{
  ℕ, zero, ◌+◌, ◌-◌, ◌*◌, ◌%◌, ◌^◌, ◌≤◌, ◌<◌, ◌≡◌, refl, ap, ◌∙◌, arith, bit_or, true, false, ◌==◌,
  if◌then◌else◌, List, [], ◌∷◌, length, length-append, length-take, length-drop, length-replicate,
  append-nil, take, drop, drop-length, replicate,
}
use phonepostmix.Base.Bits.{bit_or_flags-lt}
use phonepostmix.Ring.Fifo.{AbstractFifo}
use phonepostmix.Wire.{PacketInfo, FloatOps, packet_size, bytes_per_sample, read_header}
use phonepostmix.Wire.Header.{InRange, layout, write_header-layout, read_header-layout}
use phonepostmix.Wire.Samples.{IsNamed, encode, length-encode, write_samples_lem}
use phonepostmix.Engine.{Engine, packet, resize, stamp, serialise, send_packet}

module _ (F : FloatOps) where
  sized : List ℕ → PacketInfo → List ℕ
  sized buffer info =
      if length buffer == packet_size info then buffer else resize 0 (packet_size info) buffer

  length-resize : (n : ℕ) (xs : List ℕ) → length (resize 0 n xs) ≡ n
  length-resize n xs =
      length-append (take n xs) (replicate (n - length xs) 0)
      ∙ omega (arith, length-take n xs, length-replicate (n - length xs) (zero))

  length-sized :
      (buffer : List ℕ) (info : PacketInfo) → length (sized buffer info) ≡ packet_size info
  unfolding sized
  length-sized buffer info = ground (arith, length-resize (packet_size info) buffer)

  -- The whole buffer is written over: the header, and the samples behind it, nothing else.
  serialise_lem :
      (buffer : List ℕ) (info : PacketInfo) (xs : List F.Float)
      → IsNamed info.format
      → info.frames * info.channels ≤ length xs
      → serialise F buffer info xs
        ≡ layout info (encode F info.format (take (info.frames * info.channels) xs))
  unfolding sized serialise packet_size
  serialise_lem buffer info xs named enough =
      let d = sized buffer info in
      let n = info.frames * info.channels in
      let ys = take n xs in
      let count : length ys ≡ n = omega (arith, length-take n xs) in
      let bytes : length ys * bytes_per_sample info.format ≡ n * bytes_per_sample info.format =
        ap (λ m. m * bytes_per_sample info.format) count in
      let whole = length-sized buffer info in
      let behind = length-drop 32 d in
      rw (write_header-layout d info (omega (arith, whole))) (
        write_samples_lem F info.format ys (layout info []) (drop 32 d) named
          (omega (arith, bytes, whole, behind))
        ∙ ap (layout info) (
            rw
              (drop-length (length ys * bytes_per_sample info.format) (drop 32 d)
                (omega (arith, bytes, whole, behind)))
              (append-nil (encode F info.format ys))))

  length-serialise :
      (buffer : List ℕ) (info : PacketInfo) (xs : List F.Float)
      → IsNamed info.format
      → info.frames * info.channels ≤ length xs
      → length (serialise F buffer info xs) ≡ packet_size info
  unfolding packet_size
  length-serialise buffer info xs named enough =
      let n = info.frames * info.channels in
      let count : length (take n xs) ≡ n = omega (arith, length-take n xs) in
      ap length (serialise_lem buffer info xs named enough)
      ∙ omega (
        arith,
        length-encode F info.format (take n xs) named,
        ap (λ m. m * bytes_per_sample info.format) count,
      )

module _ (J : AbstractFifo) (F : FloatOps) where
  -- What the streaming thread's numbers stay below.
  pub record NumbersFit (e : Engine J F) : Type 0 where
    pub sequence_fits : e.sequence < 2 ^ 32
    pub clock_fits : e.sample_clock < 2 ^ 64

  stamp-InRange :
      (e : Engine J F) (time_ms : ℕ) (t : PacketInfo)
      → NumbersFit e
      → InRange t
      → InRange (stamp J F e time_ms t).1 × NumbersFit (stamp J F e time_ms t).0
  unfolding stamp
  stamp-InRange e time_ms t n v = ground (arith, bit_or_flags-lt t.flags v.flags_ok)

  -- `sendPacket` broadcasts one packet, which a receiver reads back: its header is the template with
  -- the next sequence number, the clock and the time stamped on, its payload is exactly the
  -- template's frames in the template's format, and its length is `packetSize`. Where a discontinuity
  -- is pending the clock restarts at 0 and the flags say so. Then the sequence number counts one up
  -- and the clock goes on by the frames, both in their widths, and no discontinuity is pending.
  pub send_packet_lem :
      (e : Engine J F) (time_ms : ℕ) (t old : PacketInfo) (xs : List F.Float)
      → NumbersFit e
      → InRange t
      → IsNamed t.format
      → t.frames * t.channels ≤ length xs
      → let q = (send_packet J F e time_ms t xs).0 in
        let clock = if e.discontinuity_pending then 0 else e.sample_clock in
        let info : PacketInfo = record t {
          sequence = e.sequence;
          sample_clock = clock;
          sender_time_ms = time_ms % 2 ^ 32;
          flags = if e.discontinuity_pending then bit_or t.flags 5 else t.flags;
        } in
        (bytes : List ℕ) × ((send_packet J F e time_ms t xs).1 ≡ packet bytes ∷ [])
        × (read_header bytes old ≡ (true, info))
        × (drop 32 bytes ≡ encode F t.format (take (t.frames * t.channels) xs))
        × (length bytes ≡ packet_size info)
        × (q.sequence ≡ (e.sequence + 1) % 2 ^ 32)
        × (q.sample_clock ≡ (clock + t.frames) % 2 ^ 64)
        × (q.discontinuity_pending ≡ false)
        × NumbersFit q
  unfolding send_packet
  send_packet_lem e time_ms t old xs n v named enough =
      let info = (stamp J F e time_ms t).1 in
      let (range, fits) = stamp-InRange e time_ms t n v in
      let written = serialise_lem F e.packet_buffer info xs named enough in
      (
        serialise F e.packet_buffer info xs,
        refl,
        rw written (read_header-layout info old _ range),
        ap (drop 32) written,
        length-serialise F e.packet_buffer info xs named enough,
        unfold stamp in refl,
        unfold stamp in refl,
        unfold stamp in refl,
        record { sequence_fits = fits.sequence_fits; clock_fits = fits.clock_fits },
      )
