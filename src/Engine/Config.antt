-- ===== src/Engine/Config.antt =====
-- `setSettings`, and the round behind it.
use phonepostmix.Base.{
  ℕ, ◌+◌, ◌%◌, ◌^◌, ◌≤◌, ◌≡◌, ◌≢◌, ◌⊎◌, refl, ap, ◌∙◌, arith, ==_refl, true, false, not, ◌==◌, ◌||◌,
  List, [], ◌∷◌, ◌++◌, ◌<◌, Bool, if◌then◌else◌,
}
use phonepostmix.Ring.Fifo.{AbstractFifo, FifoLaws}
use phonepostmix.Ring.Queue.{IsValid}
use phonepostmix.Wire.{PacketInfo, FloatOps, byte_of_format, format_name, read_header}
use phonepostmix.Wire.Samples.{IsNamed}
use phonepostmix.Engine.{
  Engine, Settings, Broadcast, packet, Session, session, config, make_session, bump_epoch,
  broadcast_config, set_settings, template, round, begin_round, have_audio, elapsed,
}
use phonepostmix.Engine.Stream.{IsReady}
use phonepostmix.Engine.Sending.{news_of, flags_of, middle_round_early}
use phonepostmix.Engine.Audio.{round_with_audio}
use phonepostmix.Engine.Silence.{round_without_audio}

-- A change that the stream shows: another format, or packets of another size.
abbrev pub IsChange : Settings → Settings → Type 0
IsChange old new =
    (byte_of_format new.format ≢ byte_of_format old.format)
    ⊎ (new.frames_per_packet ≢ old.frames_per_packet)

module _ (J : AbstractFifo) (F : FloatOps) where
  unchanged :
      (e : Engine J F) (new : Settings)
      → byte_of_format new.format ≡ byte_of_format e.settings.format
      → new.frames_per_packet ≡ e.settings.frames_per_packet
      → set_settings J F e new ≡ (record e { settings = new }, [])
  unfolding set_settings
  unchanged e new f n =
      simp (f, n, ==_refl (byte_of_format e.settings.format), ==_refl e.settings.frames_per_packet)

  changed :
      (e : Engine J F) (new : Settings)
      → IsChange e.settings new
      → let q = bump_epoch J F (record e { settings = new }) in
        set_settings J F e new ≡ (q, broadcast_config J F q)
  unfolding set_settings
  changed e new change =
      let on : (not (byte_of_format new.format == byte_of_format e.settings.format)
            || not (new.frames_per_packet == e.settings.frames_per_packet))
          ≡ true =
        ground arith in
      simp on

  -- `setSettings` takes all settings over. Where the format or the packet size changes it counts the
  -- epoch up in its 16 bits, asks for a discontinuity, and broadcasts, if the server runs, one
  -- "config" message with the new format, size and epoch. Where neither changes it does nothing else.
  pub set_settings_lem :
      (e : Engine J F) (new : Settings)
      → let q = (set_settings J F e new).0 in
        let sent = (set_settings J F e new).1 in
        (byte_of_format new.format ≡ byte_of_format e.settings.format
          → new.frames_per_packet ≡ e.settings.frames_per_packet
          → (q ≡ record e { settings = new }) × (sent ≡ []))
        × (IsChange e.settings new
            → (q.settings ≡ new)
              × (q.config_epoch ≡ (e.config_epoch + 1) % 2 ^ 16)
              × (q.discontinuity_pending ≡ true)
              × (e.server_running ≡ false → sent ≡ [])
              × (e.server_running ≡ true
                  → (s : Session) × (sent ≡ session s ∷ [])
                    × (s.type ≡ config)
                    × (s.format ≡ format_name new.format)
                    × (s.frames_per_packet ≡ new.frames_per_packet)
                    × (s.config_epoch ≡ (e.config_epoch + 1) % 2 ^ 16)))
  unfolding broadcast_config make_session
  set_settings_lem e new = (
    λ same_format same_size.
        let kept = unchanged e new same_format same_size in
        (ap (λ r. r.0) kept, ap (λ r. r.1) kept),
    λ change.
        let q = bump_epoch J F (record e { settings = new }) in
        let moved = changed e new change in
        (
          ap (λ (r : Engine J F × List Broadcast). r.0.settings) moved,
          ap (λ (r : Engine J F × List Broadcast). r.0.config_epoch) moved,
          ap (λ (r : Engine J F × List Broadcast). r.0.discontinuity_pending) moved,
          λ stopped. ap (λ r. r.1) moved ∙ simp stopped,
          λ runs.
              (make_session J F q config, ap (λ r. r.1) moved ∙ simp runs, refl, refl, refl, refl),
        ),
  )

  pending_flags : (playing : Bool) → flags_of J F playing true 0 ≡ (if playing then 5 else 7)
  pending_flags true = refl
  pending_flags false = refl

  bumped_ready :
      (e : Engine J F) (new : Settings)
      → IsReady J F e
      → IsNamed new.format
      → IsReady J F (bump_epoch J F (record e { settings = new }))
  bumped_ready e new v named = record {
    numbers = record { sequence_fits = v.numbers.sequence_fits; clock_fits = v.numbers.clock_fits };
    named = named;
    epoch_fits = omega arith;
  }

  early_round :
      (e : Engine J F) (now time : ℕ)
      → have_audio J F e (template J F e) ≡ false
      → elapsed now e.last_packet_time_ms < 250
      → (round J F e now time).0.discontinuity_pending ≡ e.discontinuity_pending
  unfolding round begin_round template have_audio
  early_round e now time none early =
      let t = template J F e in
      let q = (begin_round J F e).0 in
      ap (λ (r : Engine J F × List Broadcast). r.0.discontinuity_pending)
        (middle_round_early J F q now time t none early)

  -- A packet that a round on `q` broadcasts behind its news: in the format and the size of `new`, with
  -- the epoch `epoch`, the engine's next sequence number, the clock 0 and those flags.
  pub record Marked (q : Engine J F) (new : Settings) (epoch flags : ℕ) (old : PacketInfo)
      (sent : List Broadcast) : Type 0 where
    pub bytes : List ℕ
    pub info : PacketInfo
    pub only : sent ≡ news_of J F q ++ packet bytes ∷ []
    pub reads : read_header bytes old ≡ (true, info)
    pub format_of : info.format ≡ new.format
    pub frames_of : info.frames ≡ new.frames_per_packet % 2 ^ 16
    pub epoch_of : info.config_epoch ≡ epoch
    pub sequence_of : info.sequence ≡ q.sequence
    pub clock_of : info.sample_clock ≡ 0
    pub flags_are : info.flags ≡ flags

  -- The first round after a change of format or packet size, to one of the three formats, and what it
  -- broadcasts. Where the ring has the packet's channels and frames enough for one of the new size,
  -- that is a packet in the new format with that many frames, modulo 2 ^ 16, which carries the next
  -- epoch and clock 0, and whose flags are discontinuity and config-changed, and silence where the
  -- transport stands still. Where too little audio is found, and 250 ms have passed since the last
  -- packet, it is such a packet with all three flags; earlier it is none, and the discontinuity is
  -- still asked for.
  pub change_marks_packet :
      (laws : FifoLaws J) (e : Engine J F) (new : Settings) (now time : ℕ) (old : PacketInfo)
      → IsReady J F e
      → IsValid J laws F.zero_float e.ring
      → IsNamed new.format
      → IsChange e.settings new
      → let q = (set_settings J F e new).0 in
        let t = template J F q in
        let r = round J F q now time in
        let epoch = (e.config_epoch + 1) % 2 ^ 16 in
        (1 ≤ e.ring.channels
          → t.channels ≡ e.ring.channels
          → t.frames ≤ J.num_ready e.ring.fifo
          → Marked q new epoch (if e.host_playing then 5 else 7) old r.1)
        × (have_audio J F q t ≡ false
            → 250 ≤ elapsed now e.last_packet_time_ms
            → Marked q new epoch 7 old r.1)
        × (have_audio J F q t ≡ false
            → elapsed now e.last_packet_time_ms < 250
            → (r.1 ≡ news_of J F q) × (r.0.discontinuity_pending ≡ true))
  unfolding template
  change_marks_packet laws e new now time old v valid named change = rw (changed e new change) (
      let q = bump_epoch J F (record e { settings = new }) in
      let w = bumped_ready e new v named in
      (
        λ some same ready.
            let (bytes, info, sent, reads, flags, _, _, _, stamps) =
              round_with_audio J F laws q now time old w valid some same ready in
            record {
              bytes = bytes;
              info = info;
              only = sent;
              reads = reads;
              format_of = stamps.format_of;
              frames_of = stamps.frames_of;
              epoch_of = stamps.epoch_of;
              sequence_of = stamps.sequence_of;
              clock_of = stamps.clock_of;
              flags_are = flags ∙ pending_flags e.host_playing;
            },
        λ none late.
            let (bytes, info, sent, reads, flags, _, _, stamps) =
              (round_without_audio J F q now time old w none).1 late in
            record {
              bytes = bytes;
              info = info;
              only = sent;
              reads = reads;
              format_of = stamps.format_of;
              frames_of = stamps.frames_of;
              epoch_of = stamps.epoch_of;
              sequence_of = stamps.sequence_of;
              clock_of = stamps.clock_of;
              flags_are = flags;
            },
        λ none early. (
          ((round_without_audio J F q now time old w none).0 early).0,
          early_round q now time none early,
        ),
      ))
