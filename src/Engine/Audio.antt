-- ===== src/Engine/Audio.antt =====
-- Rounds of the streaming thread that find audio.
use phonepostmix.Base.{
  ℕ, ◌*◌, ◌%◌, ◌^◌, ◌≤◌, ◌≡◌, refl, sym, ap, ◌∙◌, arith, true, List, [], ◌∷◌, ◌++◌, zero, suc, min,
  max, length, drop, take-append, inl, inr,
}
use phonepostmix.Ring.Fifo.{AbstractFifo, FifoLaws}
use phonepostmix.Ring
use phonepostmix.Ring.Queue.{IsValid}
use phonepostmix.Ring.Reading.{read_takes_oldest}
use phonepostmix.Wire.{PacketInfo, FloatOps, read_header}
use phonepostmix.Wire.Samples.{encode}
use phonepostmix.Engine.{
  Engine, Broadcast, packet, make_session, template, begin_round, have_audio, round,
}
use phonepostmix.Engine.Stream.{IsReady, begin_round-Goes, drained_of, Fits-drained, alike}
use phonepostmix.Engine.Sending.{
  Stamped, news_of, flags_of, finish_round-Sends, finish_round-ring, middle_round_audio,
}

module _ (J : AbstractFifo) (F : FloatOps) where
  have_audio_holds :
      (e : Engine J F) (t : PacketInfo)
      → 1 ≤ e.ring.channels
      → t.frames ≤ J.num_ready e.ring.fifo
      → have_audio J F e t ≡ true
  unfolding have_audio
  have_audio_holds e t some ready = ground arith

  read_whole :
      (laws : FifoLaws J) (r : Ring.RingBuffer J F.Float) (n : ℕ)
      → IsValid J laws F.zero_float r
      → 1 ≤ r.channels
      → n ≤ J.num_ready r.fifo
      → (n ≤ (Ring.read J r n).2) × (length (Ring.read J r n).1 ≡ n * r.channels)
  read_whole laws r zero valid some ready =
      let none = (read_takes_oldest J laws F.zero_float r 0 valid).0 (inr (inl refl)) in
      (omega arith, omega (arith, ap (λ x. length x.1) none))
  read_whole laws r (suc n) valid some ready =
      let (count, _, _, size, _, _) =
        (read_takes_oldest J laws F.zero_float r (suc n) valid).1 some (omega arith) in
      (
        omega (arith, count),
        size
            ∙ ap (λ m. m * r.channels)
                (let e : min (suc n) (J.num_ready r.fifo) ≡ suc n = omega arith in e),
      )

  pub round_with_audio :
      (laws : FifoLaws J) (e : Engine J F) (now time : ℕ) (old : PacketInfo)
      → IsReady J F e
      → IsValid J laws F.zero_float e.ring
      → let t = template J F e in
        let r = round J F e now time in
        1 ≤ e.ring.channels
        → t.channels ≡ e.ring.channels
        → t.frames ≤ J.num_ready e.ring.fifo
        → (bytes : List ℕ) × (info : PacketInfo) × (r.1 ≡ news_of J F e ++ packet bytes ∷ [])
          × (read_header bytes old ≡ (true, info))
          × (info.flags ≡ flags_of J F e.host_playing e.discontinuity_pending 0)
          × (drop 32 bytes ≡ encode F e.settings.format (Ring.read J e.ring t.frames).1)
          × (r.0.last_packet_time_ms ≡ now)
          × (r.0.ring ≡ (Ring.read J e.ring t.frames).0)
          × Stamped J F e t info
  unfolding round begin_round make_session template have_audio
  round_with_audio laws e now time old v valid some same ready =
      let t = template J F e in
      let q = (begin_round J F e).0 in
      let out = (Ring.read J e.ring t.frames).1 in
      let (first, fits, _, _) = begin_round-Goes J F e v in
      let there : have_audio J F q t ≡ true = have_audio_holds q t some ready in
      let (whole, size) = read_whole laws e.ring t.frames valid some ready in
      let audio = middle_round_audio J F q now time t there whole in
      let (bytes, info, sent, reads, flags, payload, last, stamps) =
        finish_round-Sends J F (drained_of J F q t) now time t
          (alike J F first.ready refl refl refl refl) (Fits-drained J F fits) refl old in
      (
        bytes,
        info,
        ap (λ (r : Engine J F × List Broadcast). news_of J F e ++ r.1) audio
            ∙ ap (λ x. news_of J F e ++ x) sent,
        reads,
        flags,
        payload
            ∙ ap (encode F e.settings.format) (
                take-append out (drop (length out) q.scratch) (t.frames * t.channels)
                  (sym (size ∙ ap (λ c. t.frames * c) (sym same)))),
        ap (λ (r : Engine J F × List Broadcast). r.0.last_packet_time_ms) audio ∙ last,
        ap (λ (r : Engine J F × List Broadcast). r.0.ring) audio
            ∙ finish_round-ring J F (drained_of J F q t) now time t,
        record {
          format_of = stamps.format_of;
          channels_of = stamps.channels_of;
          rate_of = stamps.rate_of;
          frames_of = stamps.frames_of;
          epoch_of = stamps.epoch_of;
          sequence_of = stamps.sequence_of;
          clock_of = stamps.clock_of;
        },
      )

  -- Where the settings ask for no frames modulo 2 ^ 16 and the ring has channels, every round
  -- broadcasts a packet without samples and takes nothing from the ring, whatever the time since the
  -- last packet and however little audio there is.
  pub zero_frames_never_wait :
      (laws : FifoLaws J) (e : Engine J F) (now time : ℕ)
      → IsReady J F e
      → IsValid J laws F.zero_float e.ring
      → 1 ≤ e.ring.channels
      → max 1 e.current_channels % 2 ^ 8 ≡ e.ring.channels
      → e.settings.frames_per_packet % 2 ^ 16 ≡ 0
      → let r = round J F e now time in
        (bytes : List ℕ) × (r.1 ≡ news_of J F e ++ packet bytes ∷ [])
        × (drop 32 bytes ≡ [])
        × (r.0.ring ≡ e.ring)
  unfolding template encode
  zero_frames_never_wait laws e now time v valid some same zeros =
      let t = template J F e in
      let (bytes, info, sent, _, _, payload, _, ring, _) =
        round_with_audio laws e now time t v valid some same (omega (arith, zeros)) in
      let none =
        (read_takes_oldest J laws F.zero_float e.ring t.frames valid).0 (inr (inl zeros)) in
      (
        bytes,
        sent,
        payload ∙ ap (λ x. encode F e.settings.format x.1) none,
        ring ∙ ap (λ x. x.0) none,
      )
