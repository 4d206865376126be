-- ===== src/Engine/Sending.antt =====
-- The end of a round, and the three ways through its middle.
use phonepostmix.Base.{
  ℕ, ◌*◌, ◌≤◌, ◌<◌, ◌≡◌, refl, ap, ◌∙◌, bit_or, Bool, true, false, ltb, if◌then◌else◌, not, ◌&&◌,
  ◌||◌, List, [], ◌∷◌, lt→ltb, le→ltb, drop, take,
}
use phonepostmix.Ring.Fifo.{AbstractFifo}
use phonepostmix.Ring
use phonepostmix.Wire.{PacketInfo, FloatOps, read_header}
use phonepostmix.Wire.Samples.{encode}
use phonepostmix.Engine.{
  Engine, Broadcast, packet, session, state, make_session, send_packet, stamp, middle_round,
  finish_round, have_audio, elapsed, silent,
}
use phonepostmix.Engine.Packets.{send_packet_lem}
use phonepostmix.Engine.Stream.{IsReady, Fits, drained_of, quiet_of, Fits-silent}

module _ (J : AbstractFifo) (F : FloatOps) where
  -- The news of a round: a session message where the transport has changed.
  abbrev pub news_of : Engine J F → List Broadcast
  news_of e =
      if (e.host_playing && not e.last_host_playing) || (not e.host_playing && e.last_host_playing)
      then session (make_session J F e state) ∷ []
      else []

  -- The flags of a packet: silence where the transport stands still, and the discontinuity.
  abbrev pub flags_of : Bool → Bool → ℕ → ℕ
  flags_of playing discontinued flags =
      let f = if playing then flags else bit_or flags 2 in if discontinued then bit_or f 5 else f

  -- The rest of a packet's header: what the round's template says, and the engine's own numbers.
  pub record Stamped (e : Engine J F) (t info : PacketInfo) : Type 0 where
    pub format_of : info.format ≡ t.format
    pub channels_of : info.channels ≡ t.channels
    pub rate_of : info.sample_rate ≡ t.sample_rate
    pub frames_of : info.frames ≡ t.frames
    pub epoch_of : info.config_epoch ≡ t.config_epoch
    pub sequence_of : info.sequence ≡ e.sequence
    pub clock_of : info.sample_clock ≡ (if e.discontinuity_pending then 0 else e.sample_clock)

  abbrev pub Sends :
      Engine J F → PacketInfo → Engine J F × List Broadcast → ℕ → ℕ → List F.Float → Type 0
  Sends e t r now flags xs =
      (old : PacketInfo)
      → (bytes : List ℕ) × (info : PacketInfo) × (r.1 ≡ packet bytes ∷ [])
        × (read_header bytes old ≡ (true, info))
        × (info.flags ≡ flags)
        × (drop 32 bytes ≡ encode F e.settings.format xs)
        × (r.0.last_packet_time_ms ≡ now)
        × Stamped e t info

  send_packet-Sends :
      (e : Engine J F) (now time : ℕ) (t : PacketInfo)
      → IsReady J F e
      → Fits J F e t
      → t.format ≡ e.settings.format
      → let (q, sent) = send_packet J F e time t e.scratch in
        Sends e t
          (record q { last_packet_time_ms = now }, sent)
          now
          (if e.discontinuity_pending then bit_or t.flags 5 else t.flags)
          (take (t.frames * t.channels) e.scratch)
  send_packet-Sends e now time t v w same old =
      let (bytes, sent, reads, payload, _, _, _, _, _) =
        send_packet_lem J F e time t old e.scratch v.numbers w.range w.format w.enough in
      (
        bytes,
        _,
        sent,
        reads,
        refl,
        payload ∙ ap (λ f. encode F f (take (t.frames * t.channels) e.scratch)) same,
        refl,
        record {
          format_of = refl;
          channels_of = refl;
          rate_of = refl;
          frames_of = refl;
          epoch_of = refl;
          sequence_of = refl;
          clock_of = refl;
        },
      )

  pub finish_round-Sends :
      (e : Engine J F) (now time : ℕ) (t : PacketInfo)
      → IsReady J F e
      → Fits J F e t
      → t.format ≡ e.settings.format
      → Sends e t
          (finish_round J F e now time t)
          now
          (flags_of e.last_host_playing e.discontinuity_pending t.flags)
          (take (t.frames * t.channels) e.scratch)
  unfolding finish_round
  finish_round-Sends e now time t v w same =
      elim e.last_host_playing
        as (λ playing.
          let (q, sent) = send_packet J F e time (if playing then t else silent t) e.scratch in
          Sends e t (record q { last_packet_time_ms = now }, sent) now
            (flags_of playing e.discontinuity_pending t.flags)
            (take (t.frames * t.channels) e.scratch)) [
              | true ↦ send_packet-Sends e now time t v w same
              | false ↦ λ old.
                  let (bytes, info, sent, reads, flags, payload, last, stamps) =
                    send_packet-Sends e now time (silent t) v (Fits-silent J F w) same old in
                  (
                    bytes,
                    info,
                    sent,
                    reads,
                    flags,
                    payload,
                    last,
                    record {
                      format_of = stamps.format_of;
                      channels_of = stamps.channels_of;
                      rate_of = stamps.rate_of;
                      frames_of = stamps.frames_of;
                      epoch_of = stamps.epoch_of;
                      sequence_of = stamps.sequence_of;
                      clock_of = stamps.clock_of;
                    },
                  )
            ]

  pub middle_round_early :
      (e : Engine J F) (now time : ℕ) (t : PacketInfo)
      → have_audio J F e t ≡ false
      → elapsed now e.last_packet_time_ms < 250
      → middle_round J F e now time t ≡ (e, [])
  unfolding middle_round
  middle_round_early e now time t none early =
      let le : ltb (elapsed now e.last_packet_time_ms) 250 ≡ true = lt→ltb _ _ early in
      simp (none, le)

  pub middle_round_late :
      (e : Engine J F) (now time : ℕ) (t : PacketInfo)
      → have_audio J F e t ≡ false
      → 250 ≤ elapsed now e.last_packet_time_ms
      → middle_round J F e now time t ≡ finish_round J F (quiet_of J F e t) now time (silent t)
  unfolding middle_round
  middle_round_late e now time t none late =
      let le : ltb (elapsed now e.last_packet_time_ms) 250 ≡ false = le→ltb _ _ late in
      simp (none, le)

  pub middle_round_audio :
      (e : Engine J F) (now time : ℕ) (t : PacketInfo)
      → have_audio J F e t ≡ true
      → t.frames ≤ (Ring.read J e.ring t.frames).2
      → middle_round J F e now time t ≡ finish_round J F (drained_of J F e t) now time t
  unfolding middle_round
  middle_round_audio e now time t some all =
      let le : ltb (Ring.read J e.ring t.frames).2 t.frames ≡ false = le→ltb _ _ all in
      simp (some, le)

  pub finish_round-ring :
      (e : Engine J F) (now time : ℕ) (t : PacketInfo)
      → (finish_round J F e now time t).0.ring ≡ e.ring
  unfolding finish_round send_packet stamp
  finish_round-ring e now time t = refl
