-- ===== src/Engine/Silence.antt =====
-- Rounds of the streaming thread that find no audio.
use phonepostmix.Base.{
  ℕ, ◌*◌, ◌≤◌, ◌<◌, ◌≡◌, refl, sym, ap, ◌∙◌, Bool, true, false, ltb, if◌then◌else◌, List, [], ◌∷◌,
  ◌++◌, ltb→lt, ltb→le, drop, take-append, replicate, Bool-cases, inl, inr, length-replicate,
  append-nil,
}
use phonepostmix.Ring.Fifo.{AbstractFifo}
use phonepostmix.Wire.{PacketInfo, FloatOps, read_header}
use phonepostmix.Wire.Samples.{encode}
use phonepostmix.Engine.{
  Engine, Broadcast, packet, make_session, template, begin_round, middle_round, finish_round,
  have_audio, round, elapsed, silent,
}
use phonepostmix.Engine.Stream.{IsReady, begin_round-Goes, quiet_of, Fits-silent, Fits-quiet, alike}
use phonepostmix.Engine.Sending.{
  Stamped, news_of, flags_of, finish_round-Sends, finish_round-ring, middle_round_early,
  middle_round_late,
}

module _ (J : AbstractFifo) (F : FloatOps) where
  silent_flags : (p d : Bool) → flags_of J F p d 2 ≡ (if d then 7 else 2)
  silent_flags true true = refl
  silent_flags true false = refl
  silent_flags false true = refl
  silent_flags false false = refl

  silence_sent :
      (e : Engine J F) (now time : ℕ) (old : PacketInfo)
      → IsReady J F e
      → let t = template J F e in
        let q = (begin_round J F e).0 in
        let r = round J F e now time in
        middle_round J F q now time t ≡ finish_round J F (quiet_of J F q t) now time (silent t)
        → (bytes : List ℕ) × (info : PacketInfo) × (r.1 ≡ news_of J F e ++ packet bytes ∷ [])
          × (read_header bytes old ≡ (true, info))
          × (info.flags ≡ (if e.discontinuity_pending then 7 else 2))
          × (drop 32 bytes
              ≡ encode F e.settings.format (replicate (t.frames * t.channels) F.zero_float))
          × (r.0.last_packet_time_ms ≡ now)
          × Stamped J F e t info
  unfolding round begin_round make_session template
  silence_sent e now time old v late =
      let t = template J F e in
      let q = (begin_round J F e).0 in
      let n = t.frames * t.channels in
      let (first, fits, _, _) = begin_round-Goes J F e v in
      let (bytes, info, sent, reads, flags, payload, last, stamps) =
        finish_round-Sends J F (quiet_of J F q t) now time (silent t)
          (alike J F first.ready refl refl refl refl) (Fits-silent J F (Fits-quiet J F fits)) refl
          old in
      (
        bytes,
        info,
        ap (λ (r : Engine J F × List Broadcast). news_of J F e ++ r.1) late
            ∙ ap (λ x. news_of J F e ++ x) sent,
        reads,
        flags ∙ silent_flags e.host_playing e.discontinuity_pending,
        payload
            ∙ ap (encode F e.settings.format) (
                take-append (replicate n F.zero_float) (drop n q.scratch) n
                  (sym (length-replicate n F.zero_float))),
        ap (λ (r : Engine J F × List Broadcast). r.0.last_packet_time_ms) late ∙ last,
        record {
          format_of = stamps.format_of;
          channels_of = stamps.channels_of;
          rate_of = stamps.rate_of;
          frames_of = stamps.frames_of;
          epoch_of = stamps.epoch_of;
          sequence_of = stamps.sequence_of;
          clock_of = stamps.clock_of;
        },
      )

  -- A round that finds too little audio for a packet. For 250 ms after the last packet it broadcasts
  -- at most a session message, where the transport has changed since the last round, and goes on
  -- without a packet. Then it sends one packet of zeros, marked as silence whether or not the transport
  -- stands still, and its time becomes the time of the last packet. The ring is left alone.
  pub round_without_audio :
      (e : Engine J F) (now time : ℕ) (old : PacketInfo)
      → IsReady J F e
      → let t = template J F e in
        let r = round J F e now time in
        have_audio J F e t ≡ false
        → (elapsed now e.last_packet_time_ms < 250
            → (r.1 ≡ news_of J F e)
              × (r.0.sequence ≡ e.sequence)
              × (r.0.sample_clock ≡ e.sample_clock)
              × (r.0.last_packet_time_ms ≡ e.last_packet_time_ms))
          × (250 ≤ elapsed now e.last_packet_time_ms
              → (bytes : List ℕ) × (info : PacketInfo) × (r.1 ≡ news_of J F e ++ packet bytes ∷ [])
                × (read_header bytes old ≡ (true, info))
                × (info.flags ≡ (if e.discontinuity_pending then 7 else 2))
                × (drop 32 bytes
                    ≡ encode F e.settings.format (replicate (t.frames * t.channels) F.zero_float))
                × (r.0.last_packet_time_ms ≡ now)
                × Stamped J F e t info)
          × (r.0.ring ≡ e.ring)
  unfolding round begin_round make_session template have_audio
  round_without_audio e now time old v none =
      let t = template J F e in
      let q = (begin_round J F e).0 in
      let early = middle_round_early J F q now time t none in
      let late = middle_round_late J F q now time t none in
      (
        λ h. (
          ap (λ (r : Engine J F × List Broadcast). news_of J F e ++ r.1) (early h)
              ∙ append-nil (news_of J F e),
          ap (λ (r : Engine J F × List Broadcast). r.0.sequence) (early h),
          ap (λ (r : Engine J F × List Broadcast). r.0.sample_clock) (early h),
          ap (λ (r : Engine J F × List Broadcast). r.0.last_packet_time_ms) (early h),
        ),
        λ h. silence_sent e now time old v (late h),
        elim (Bool-cases (ltb (elapsed now e.last_packet_time_ms) 250)) [
          | inl h ↦ ap (λ (r : Engine J F × List Broadcast). r.0.ring) (early (ltb→lt _ _ h))
          | inr h ↦
              ap (λ (r : Engine J F × List Broadcast). r.0.ring) (late (ltb→le _ _ h))
              ∙ finish_round-ring J F (quiet_of J F q t) now time (silent t)
        ],
      )
