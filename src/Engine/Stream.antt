-- ===== src/Engine/Stream.antt =====
-- The rounds of the streaming thread, between the calls of the other threads.
use phonepostmix.Base.{
  ℕ, ◌-◌, ◌*◌, ◌^◌, ◌≤◌, ◌<◌, ◌≡◌, refl, sym, ap, ◌∙◌, subst, arith, Bool, true, false, ltb,
  if◌then◌else◌, List, [], ◌∷◌, ◌++◌, length, length-append, length-take, length-drop,
  length-replicate, take, drop, replicate,
}
use phonepostmix.Base.Bits.{bit_or_flags-lt}
use phonepostmix.Ring.Fifo.{AbstractFifo}
use phonepostmix.Ring.{AudioBuffer}
use phonepostmix.Ring
use phonepostmix.Wire.{Format, PacketInfo, FloatOps, read_header}
use phonepostmix.Wire.Header.{InRange, IsFormat}
use phonepostmix.Wire.Samples.{IsNamed}
use phonepostmix.Engine.{
  Engine, Session, Settings, Broadcast, packet, session, resize, stamp, send_packet, template,
  begin_round, middle_round, finish_round, have_audio, round, elapsed, silent, silence_keepalive_ms,
}
use phonepostmix.Engine.Packets.{NumbersFit, send_packet_lem}
use phonepostmix.Engine.Numbering.{Numbered, number_after, Numbered-append, number_after-append}

abbrev first_bytes : List Broadcast → List ℕ
first_bytes [] = []
first_bytes (session s ∷ sent) = []
first_bytes (packet bytes ∷ sent) = bytes

module _ (J : AbstractFifo) (F : FloatOps) where
  -- The invariant of the streaming thread.
  pub record IsReady (e : Engine J F) : Type 0 where
    pub numbers : NumbersFit J F e
    pub named : IsNamed e.settings.format
    pub epoch_fits : e.config_epoch < 2 ^ 16

  pub alike :
      {e q : Engine J F}
      → IsReady e
      → q.sequence ≡ e.sequence
      → q.sample_clock ≡ e.sample_clock
      → q.settings ≡ e.settings
      → q.config_epoch ≡ e.config_epoch
      → IsReady q
  alike {e = e} {q = q} v a b c d = record {
    numbers = record {
      sequence_fits = omega (arith, a, v.numbers.sequence_fits);
      clock_fits = omega (arith, b, v.numbers.clock_fits);
    };
    named = subst (λ (s : Settings). IsNamed s.format) (sym c) v.named;
    epoch_fits = omega (arith, d, v.epoch_fits);
  }

  -- What a call leaves: a ready engine, and packets numbered from `n` up to the sequence number left.
  pub record Goes (n : ℕ) (r : Engine J F × List Broadcast) : Type 0 where
    pub ready : IsReady r.0
    pub numbered : Numbered n r.1
    pub counts : r.0.sequence ≡ number_after n r.1

  pub Goes-if :
      {n : ℕ} {x y : Engine J F × List Broadcast} (b : Bool)
      → Goes n x
      → Goes n y
      → Goes n (if b then x else y)
  Goes-if true g h = g
  Goes-if false g h = h

  named-IsFormat : (f : Format) → IsNamed f → IsFormat f
  named-IsFormat Format.pcm16 h = tt
  named-IsFormat Format.pcm24 h = tt
  named-IsFormat Format.float32 h = tt
  named-IsFormat (Format.other n) h = elim h [ ]

  pub template-InRange : (e : Engine J F) → IsReady e → InRange (template J F e)
  unfolding template
  template-InRange e v = record {
    format_ok = named-IsFormat e.settings.format v.named;
    channels_ok = omega arith;
    flags_ok = omega arith;
    sequence_ok = omega arith;
    sample_rate_ok = omega arith;
    frames_ok = omega arith;
    config_epoch_ok = v.epoch_fits;
    sample_clock_ok = omega arith;
    sender_time_ms_ok = omega arith;
  }

  silent-InRange : (t : PacketInfo) → InRange t → InRange (silent t)
  silent-InRange t v = ground (arith, bit_or_flags-lt t.flags v.flags_ok)

  -- What a round needs of its template and of the scratch buffer.
  pub record Fits (e : Engine J F) (t : PacketInfo) : Type 0 where
    pub range : InRange t
    pub format : IsNamed t.format
    pub enough : t.frames * t.channels ≤ length e.scratch

  pub Fits-silent : {e : Engine J F} {t : PacketInfo} → Fits e t → Fits e (silent t)
  Fits-silent {t = t} w = record {
    range = silent-InRange t w.range;
    format = w.format;
    enough = w.enough;
  }

  -- The states in which a round sends audio from the ring, and silence.
  abbrev pub drained_of : Engine J F → PacketInfo → Engine J F
  drained_of e t =
      let (ring, out, frames) = Ring.read J e.ring t.frames in
      record e { ring = ring; scratch = out ++ drop (length out) e.scratch }

  abbrev pub quiet_of : Engine J F → PacketInfo → Engine J F
  quiet_of e t =
      let samples = t.frames * t.channels in
      record e { scratch = replicate samples F.zero_float ++ drop samples e.scratch }

  pub Fits-drained : {e : Engine J F} {t : PacketInfo} → Fits e t → Fits (drained_of e t) t
  Fits-drained {e = e} {t = t} w =
      let out = (Ring.read J e.ring t.frames).1 in
      record {
        range = w.range;
        format = w.format;
        enough = omega (
          arith,
          w.enough,
          length-append out (drop (length out) e.scratch),
          length-drop (length out) e.scratch,
        );
      }

  pub Fits-quiet : {e : Engine J F} {t : PacketInfo} → Fits e t → Fits (quiet_of e t) t
  Fits-quiet {e = e} {t = t} w =
      let n = t.frames * t.channels in
      record {
        range = w.range;
        format = w.format;
        enough = omega (
          arith,
          length-append (replicate n F.zero_float) (drop n e.scratch),
          length-replicate n F.zero_float,
        );
      }

  send_packet-Goes :
      (e : Engine J F) (time : ℕ) (t : PacketInfo)
      → IsReady e
      → Fits e t
      → Goes e.sequence (send_packet J F e time t e.scratch)
  unfolding send_packet stamp Numbered number_after
  send_packet-Goes e time t v w =
      let sends = λ (old : PacketInfo).
        send_packet_lem J F e time t old e.scratch v.numbers w.range w.format w.enough in
      let (_, _, _, _, _, _, _, _, fits) = sends t in
      record {
        ready = record {
          numbers = record { sequence_fits = fits.sequence_fits; clock_fits = fits.clock_fits };
          named = v.named;
          epoch_fits = v.epoch_fits;
        };
        numbered = (
          λ old.
              let (bytes, sent, reads, _, size, _, _, _, _) = sends old in
              let same = ap first_bytes sent in
              (_, ap (λ b. read_header b old) same ∙ reads, refl, ap length same ∙ size),
          tt,
        );
        counts = refl;
      }

  finish_round-Goes :
      (e : Engine J F) (now time : ℕ) (t : PacketInfo)
      → IsReady e
      → Fits e t
      → Goes e.sequence (finish_round J F e now time t)
  unfolding finish_round
  finish_round-Goes e now time t v w =
      let loud = send_packet-Goes e time t v w in
      let quiet = send_packet-Goes e time (silent t) v (Fits-silent w) in
      elim e.last_host_playing
        as (λ playing.
          let (q, sent) = send_packet J F e time (if playing then t else silent t) e.scratch in
          Goes e.sequence (record q { last_packet_time_ms = now }, sent)) [
            | true ↦ record {
              ready = alike loud.ready refl refl refl refl;
              numbered = loud.numbered;
              counts = loud.counts;
            }
            | false ↦ record {
              ready = alike quiet.ready refl refl refl refl;
              numbered = quiet.numbered;
              counts = quiet.counts;
            }
          ]

  pub stay : {e : Engine J F} → IsReady e → Goes e.sequence (e, [])
  unfolding Numbered number_after
  stay v = record { ready = v; numbered = tt; counts = refl }

  middle_round-Goes :
      (e : Engine J F) (now time : ℕ) (t : PacketInfo)
      → IsReady e
      → Fits e t
      → Goes e.sequence (middle_round J F e now time t)
  unfolding middle_round
  middle_round-Goes e now time t v w =
      let drained = drained_of e t in
      let quiet = quiet_of e t in
      Goes-if (have_audio J F e t)
        (Goes-if (ltb _ t.frames) (stay (alike v refl refl refl refl))
          (finish_round-Goes drained now time t (alike v refl refl refl refl) (Fits-drained w)))
        (Goes-if (ltb (elapsed now e.last_packet_time_ms) silence_keepalive_ms) (stay v) (
          finish_round-Goes quiet now time (silent t) (alike v refl refl refl refl)
            (Fits-silent (Fits-quiet w))))

  abbrev pub news : Bool → Session → List Broadcast
  news changed s = if changed then session s ∷ [] else []

  pub news-Numbered :
      (n : ℕ) (changed : Bool) (s : Session)
      → Numbered n (news changed s) × (number_after n (news changed s) ≡ n)
  unfolding Numbered number_after
  news-Numbered n true s = (tt, refl)
  news-Numbered n false s = (tt, refl)

  length-roomy :
      (n : ℕ) (x : F.Float) (xs : List F.Float)
      → n ≤ length (if ltb (length xs) n then resize x n xs else xs)
  length-roomy n x xs = ground (
    arith,
    length-append (take n xs) (replicate (n - length xs) x),
    length-take n xs,
    length-replicate (n - length xs) x,
  )

  pub begin_round-Goes :
      (e : Engine J F)
      → IsReady e
      → Goes e.sequence (begin_round J F e)
        × Fits (begin_round J F e).0 (template J F e)
        × ((begin_round J F e).0.sequence ≡ e.sequence)
        × (number_after e.sequence (begin_round J F e).1 ≡ e.sequence)
  unfolding begin_round
  begin_round-Goes e v =
      let (numbered, counts) = news-Numbered e.sequence _ _ in
      (
        record { ready = alike v refl refl refl refl; numbered = numbered; counts = sym counts },
        record {
          range = template-InRange e v;
          format = unfold template in v.named;
          enough = unfold template in length-roomy _ F.zero_float e.scratch;
        },
        refl,
        counts,
      )

  pub Goes-append :
      (n : ℕ) (p r : Engine J F × List Broadcast)
      → Goes n p
      → Goes p.0.sequence r
      → Goes n (r.0, p.1 ++ r.1)
  Goes-append n p r g h = record {
    ready = h.ready;
    numbered =
        Numbered-append n p.1 r.1 g.numbered (subst (λ m. Numbered m r.1) g.counts h.numbered);
    counts = h.counts ∙ ap (λ m. number_after m r.1) g.counts ∙ sym (number_after-append n p.1 r.1);
  }

  pub round-Goes :
      (e : Engine J F) (now time : ℕ) → IsReady e → Goes e.sequence (round J F e now time)
  unfolding round
  round-Goes e now time v =
      let (first, fits, same, _) = begin_round-Goes e v in
      let q = (begin_round J F e).0 in
      Goes-append e.sequence (begin_round J F e) (middle_round J F q now time (template J F e))
        first (middle_round-Goes q now time (template J F e) first.ready fits)
