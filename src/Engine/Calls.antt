-- ===== src/Engine/Calls.antt =====
-- All calls on the engine, in any order.
use phonepostmix.Base.{
  ℕ, ◌*◌, ◌/◌, max, ◌≡◌, refl, sym, arith, Bool, true, false, if◌then◌else◌, List, [], ◌∷◌,
}
use phonepostmix.Ring.{AudioBuffer}
use phonepostmix.Ring
use phonepostmix.Ring.Fifo.{AbstractFifo}
use phonepostmix.Wire.{FloatOps}
use phonepostmix.Wire.Samples.{IsNamed}
use phonepostmix.Engine.{
  Engine, limit_channels, Settings, MeterOps, config, broadcast_config, bump_epoch, make_session,
  set_settings, prepare, release, set_host_playing, push_audio, Call, rounded, settings_set,
  prepared, released, playing_set, audio_pushed, started, stopped, start_thread, stop_thread, call,
  calls,
}
use phonepostmix.Engine.Numbering.{Numbered, number_after}
use phonepostmix.Engine.Stream.{
  IsReady, Goes, Goes-if, Goes-append, alike, stay, round-Goes, news-Numbered,
}

module _ (J : AbstractFifo) (F : FloatOps) (m : MeterOps F) where
  -- Settings name one of the three formats.
  unfoldable pub Named : List (Call J F) → Type 0
  Named [] = Unit {0}
  Named (settings_set new ∷ cs) = IsNamed new.format × Named cs
  Named (rounded now time ∷ cs) = Named cs
  Named (prepared rate block channels ∷ cs) = Named cs
  Named (released ∷ cs) = Named cs
  Named (playing_set playing ∷ cs) = Named cs
  Named (audio_pushed buffer ∷ cs) = Named cs
  Named (started now ∷ cs) = Named cs
  Named (stopped ∷ cs) = Named cs

  bumped-Goes :
      (e : Engine J F)
      → IsReady J F e
      → Goes J F e.sequence (bump_epoch J F e, broadcast_config J F (bump_epoch J F e))
  unfolding broadcast_config
  bumped-Goes e v =
      let q = bump_epoch J F e in
      let (numbered, counts) =
        news-Numbered J F e.sequence e.server_running (make_session J F q config) in
      record {
        ready = record {
          numbers = record {
            sequence_fits = v.numbers.sequence_fits;
            clock_fits = v.numbers.clock_fits;
          };
          named = v.named;
          epoch_fits = omega arith;
        };
        numbered = numbered;
        counts = sym counts;
      }

  pub set_settings-Goes :
      (e : Engine J F) (new : Settings)
      → IsReady J F e
      → IsNamed new.format
      → Goes J F e.sequence (set_settings J F e new)
  unfolding set_settings
  set_settings-Goes e new v named =
      let q = record e { settings = new } in
      let w : IsReady J F q = record {
        numbers = record {
          sequence_fits = v.numbers.sequence_fits;
          clock_fits = v.numbers.clock_fits;
        };
        named = named;
        epoch_fits = v.epoch_fits;
      } in
      Goes-if J F _ (bumped-Goes q w) (stay J F w)

  field-if :
      {A : Type 0} (f : Engine J F → A) (b : Bool) (q e : Engine J F)
      → f q ≡ f e
      → f (if b then q else e) ≡ f e
  field-if f true q e h = h
  field-if f false q e h = refl

  prepare-Goes :
      (e : Engine J F) (rate block channels : ℕ)
      → IsReady J F e
      → Goes J F e.sequence (prepare J F e rate block channels)
  unfolding prepare
  prepare-Goes e rate block channels v =
      let n = limit_channels channels in
      let q = record e {
        current_sample_rate = rate;
        current_channels = n;
        ring = Ring.prepare J F.zero_float e.ring n (max (max (rate / 2) (block * 4)) 8192);
      } in
      bumped-Goes q (alike J F v refl refl refl refl)

  release-Goes : (e : Engine J F) → IsReady J F e → Goes J F e.sequence (release J F e, [])
  unfolding release
  release-Goes e v = stay J F (alike J F v refl refl refl refl)

  set_host_playing-Goes :
      (e : Engine J F) (playing : Bool)
      → IsReady J F e
      → Goes J F e.sequence (set_host_playing J F e playing, [])
  unfolding set_host_playing
  set_host_playing-Goes e playing v = stay J F (alike J F v refl refl refl refl)

  push_audio-Goes :
      (e : Engine J F) (buffer : AudioBuffer F.Float)
      → IsReady J F e
      → Goes J F e.sequence (push_audio J F m e buffer, [])
  unfolding push_audio Numbered number_after
  push_audio-Goes e buffer v = record {
    ready =
        alike J F v (field-if (λ x. x.sequence) e.server_running _ e refl)
          (field-if (λ x. x.sample_clock) e.server_running _ e refl)
          (field-if (λ x. x.settings) e.server_running _ e refl)
          (field-if (λ x. x.config_epoch) e.server_running _ e refl);
    numbered = tt;
    counts = field-if (λ x. x.sequence) e.server_running _ e refl;
  }

  start_thread-Goes :
      (e : Engine J F) (now : ℕ) → IsReady J F e → Goes J F e.sequence (start_thread J F e now, [])
  unfolding start_thread
  start_thread-Goes e now v =
      elim e.server_running
        as (λ up. Goes J F e.sequence (
          if up then e else record e {
            server_running = true;
            discontinuity_pending = true;
            last_packet_time_ms = now;
            last_host_playing = e.host_playing;
          },
          [],
        )) [ true ↦ stay J F v | false ↦ stay J F (alike J F v refl refl refl refl) ]

  stop_thread-Goes : (e : Engine J F) → IsReady J F e → Goes J F e.sequence (stop_thread J F e, [])
  unfolding stop_thread
  stop_thread-Goes e v = stay J F (alike J F v refl refl refl refl)

  call-Goes :
      (e : Engine J F) (c : Call J F) (cs : List (Call J F))
      → IsReady J F e
      → Named (c ∷ cs)
      → Goes J F e.sequence (call J F m e c) × Named cs
  unfolding call Named
  call-Goes e (rounded now time) cs v n = (round-Goes J F e now time v, n)
  call-Goes e (settings_set new) cs v (named, n) = (set_settings-Goes e new v named, n)
  call-Goes e (prepared rate block channels) cs v n = (prepare-Goes e rate block channels v, n)
  call-Goes e released cs v n = (release-Goes e v, n)
  call-Goes e (playing_set playing) cs v n = (set_host_playing-Goes e playing v, n)
  call-Goes e (audio_pushed buffer) cs v n = (push_audio-Goes e buffer v, n)
  call-Goes e (started now) cs v n = (start_thread-Goes e now v, n)
  call-Goes e stopped cs v n = (stop_thread-Goes e v, n)

  calls-Goes :
      (e : Engine J F) (cs : List (Call J F))
      → IsReady J F e
      → Named cs
      → Goes J F e.sequence (calls J F m e cs)
  unfolding calls
  calls-Goes e [] v n = stay J F v
  calls-Goes e (c ∷ cs) v n =
      let (first, named) = call-Goes e c cs v n in
      let q = (call J F m e c).0 in
      Goes-append J F e.sequence (call J F m e c) (calls J F m q cs) first
        (calls-Goes q cs first.ready named)

  -- Whatever calls the threads make, `start` and `stop` among them, in whatever order, as long as the settings name one of the three
  -- formats: the streaming thread's invariant is kept, every packet broadcast is one that a receiver
  -- reads back with the length that its header promises, and the packets are numbered one by one
  -- modulo 2 ^ 32 from the engine's sequence number on, across changes of format and of sample rate,
  -- restarts, and blocks of audio that the ring has refused: a receiver sees no gap for those.
  pub calls_number_packets :
      (e : Engine J F) (cs : List (Call J F))
      → IsReady J F e
      → Named cs
      → let (q, sent) = calls J F m e cs in
        IsReady J F q × Numbered e.sequence sent × (q.sequence ≡ number_after e.sequence sent)
  calls_number_packets e cs v n =
      let goes = calls-Goes e cs v n in (goes.ready, goes.numbered, goes.counts)
