-- ===== src/Engine/Tests.antt =====
-- The engine over the counting fifo and floats of hundredths.
use phonepostmix.Base.{
  ℕ, ◌-◌, ◌^◌, ◌≡◌, inl, refl, arith, true, false, List, [], ◌∷◌, ◌++◌, drop, replicate,
}
use phonepostmix.Base.Int.{ℤ, pos}
use phonepostmix.Ring.{RingBuffer, AudioBuffer}
use phonepostmix.Ring
use phonepostmix.Ring.Counting.{counting, counting-FifoLaws}
use phonepostmix.Ring.Queue.{IsValid}
use phonepostmix.Wire.{pcm24, byte_of_format, PacketInfo, default_info}
use phonepostmix.Wire.Header.{InRange}
use phonepostmix.Wire.Hundredths.{hundredths}
use phonepostmix.Engine.{
  Engine, Settings, default_settings, MeterOps, packet, template, send_packet, round, set_settings,
  Call, rounded, settings_set, prepared, started, stopped, calls, have_audio,
}
use phonepostmix.Engine.Packets.{send_packet_lem}
use phonepostmix.Engine.Numbering.{Numbered, number_after}
use phonepostmix.Engine.Stream.{IsReady}
use phonepostmix.Engine.Calls.{Named, calls_number_packets}
use phonepostmix.Engine.Silence.{round_without_audio}
use phonepostmix.Engine.Audio.{zero_frames_never_wait}
use phonepostmix.Engine.Config.{Marked, change_marks_packet}

-- One frame is ready, in the last of four slots.
abbrev filled : RingBuffer counting ℤ
filled = record {
  fifo = record { total = 4; start = 3; count = 1 };
  storage = replicate 6 (pos 0) ++ pos 50 ∷ pos 100 ∷ [];
  channels = 2;
  overruns = 0;
}

abbrev pub live : Engine counting hundredths
live = record {
  settings = record default_settings { frames_per_packet = 1 };
  ring = filled;
  current_sample_rate = 48000;
  current_channels = 2;
  config_epoch = 2 ^ 16 - 1;
  server_running = true;
  host_playing = true;
  discontinuity_pending = false;
  peak_left = pos 0;
  peak_right = pos 0;
  scratch = [];
  packet_buffer = [];
  sequence = 2 ^ 32 - 1;
  sample_clock = 4096;
  last_packet_time_ms = 2 ^ 32 - 100;
  last_host_playing = true;
}

-- The same with nothing ready, and with packets of no frames.
abbrev drained : Engine counting hundredths
drained = record live { ring = record filled { fifo = record { total = 4; start = 0; count = 0 } } }

abbrev zero_sized : Engine counting hundredths
zero_sized = record drained { settings = record default_settings { frames_per_packet = 65536 } }

abbrev pub quiet_meter : MeterOps hundredths
quiet_meter = record { magnitude = λ buffer channel. pos 0; times_decay = λ x. x }

abbrev pcm24_settings : Settings
pcm24_settings = record default_settings { format = pcm24; frames_per_packet = 1 }

live-IsReady : IsReady counting hundredths live
live-IsReady = record {
  numbers = record { sequence_fits = omega arith; clock_fits = omega arith };
  named = tt;
  epoch_fits = omega arith;
}

drained-IsReady : IsReady counting hundredths drained
drained-IsReady = record {
  numbers = record { sequence_fits = omega arith; clock_fits = omega arith };
  named = tt;
  epoch_fits = omega arith;
}

zero_sized-IsReady : IsReady counting hundredths zero_sized
zero_sized-IsReady = record {
  numbers = record { sequence_fits = omega arith; clock_fits = omega arith };
  named = tt;
  epoch_fits = omega arith;
}

filled-IsValid : IsValid counting counting-FifoLaws (pos 0) filled
filled-IsValid = record { has_slots = omega arith; has_storage = refl }

drained-IsValid : IsValid counting counting-FifoLaws (pos 0) drained.ring
drained-IsValid = record { has_slots = omega arith; has_storage = refl }

abbrev a_template : PacketInfo
a_template = record default_info { frames = 1 }

a_template-InRange : InRange a_template
a_template-InRange = record {
  format_ok = tt;
  channels_ok = omega arith;
  flags_ok = omega arith;
  sequence_ok = omega arith;
  sample_rate_ok = omega arith;
  frames_ok = omega arith;
  config_epoch_ok = omega arith;
  sample_clock_ok = omega arith;
  sender_time_ms_ok = omega arith;
}

send_packet_lem_example :
    (send_packet counting hundredths live 5 a_template (pos 50 ∷ pos 100 ∷ [])).0.sequence ≡ 0
send_packet_lem_example =
    (send_packet_lem counting hundredths live 5 a_template default_info (pos 50 ∷ pos 100 ∷ [])
      live-IsReady.numbers a_template-InRange tt (omega arith)).5

round_without_audio_example : (round counting hundredths drained 149 150).1 ≡ []
unfolding template have_audio
round_without_audio_example =
    ((round_without_audio counting hundredths drained 149 150 default_info drained-IsReady refl).0
      (omega arith)).0

zero_frames_never_wait_example :
    (bytes : List ℕ) × ((round counting hundredths zero_sized 0 0).1 ≡ packet bytes ∷ [])
    × (drop 32 bytes ≡ [])
    × ((round counting hundredths zero_sized 0 0).0.ring ≡ drained.ring)
zero_frames_never_wait_example =
    zero_frames_never_wait counting hundredths counting-FifoLaws zero_sized 0 0 zero_sized-IsReady
      drained-IsValid (omega arith) refl refl

-- The frame that is ready goes out in the new format.
change_marks_packet_example :
    let q = (set_settings counting hundredths live pcm24_settings).0 in
    Marked counting hundredths q pcm24_settings 0 5 default_info
      (round counting hundredths q 9 10).1
unfolding template byte_of_format set_settings
change_marks_packet_example =
    (change_marks_packet counting hundredths counting-FifoLaws live pcm24_settings 9 10 default_info
        live-IsReady filled-IsValid tt (inl (λ e. omega (arith, e)))).0
      (omega arith) refl (omega arith)

abbrev some_calls : List (Call counting hundredths)
some_calls =
    rounded 7 8
    ∷ stopped
    ∷ started 9
    ∷ settings_set pcm24_settings
    ∷ prepared 44100 512 2
    ∷ rounded 500 500
    ∷ []

calls_number_packets_example :
    let q = (calls counting hundredths quiet_meter live some_calls).0 in
    let sent = (calls counting hundredths quiet_meter live some_calls).1 in
    IsReady counting hundredths q
    × Numbered (2 ^ 32 - 1) sent
    × (q.sequence ≡ number_after (2 ^ 32 - 1) sent)
unfolding Named
calls_number_packets_example =
    calls_number_packets counting hundredths quiet_meter live some_calls live-IsReady (tt, tt)
