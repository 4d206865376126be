-- ===== src/Engine.antt =====
-- core/StreamEngine.h and core/StreamEngine.cpp: the settings, the audio thread's entry and the
-- streaming thread. A sample rate is a whole number of Hz. What the engine hands to the server's
-- broadcast calls is returned as a list, in order.
pub mod Packets
pub mod Numbering
pub mod Stream
pub mod Calls
pub mod Sending
pub mod Silence
pub mod Audio
pub mod Config
pub mod Clients
pub mod Addresses
pub mod Assets
pub mod Pairing
pub mod Service
pub mod Tests
use phonepostmix.Base.{
  ℕ, zero, suc, ◌+◌, ◌-◌, ◌*◌, ◌/◌, ◌%◌, ◌^◌, min, max, bit_or, Bool, true, false, not, ltb, leb,
  ◌==◌, ◌&&◌, ◌||◌, if◌then◌else◌, List, [], ◌∷◌, ◌++◌, length, get_or, take, drop, replicate,
}
use phonepostmix.Ring.Fifo.{AbstractFifo}
use phonepostmix.Ring.{RingBuffer, AudioBuffer}
use phonepostmix.Ring
use phonepostmix.Wire.{
  Format, byte_of_format, PacketInfo, default_info, format_name, FloatOps, write_header,
  write_samples, packet_size, header_bytes, protocol_version, silence, discontinuity,
  config_changed,
}

pub record Settings : Type 0 where
  pub format : Format
  pub frames_per_packet : ℕ
  pub preferred_port : ℕ
  pub target_latency_ms : ℕ

abbrev pub default_settings : Settings
default_settings = record {
  format = Format.pcm16;
  frames_per_packet = 512;
  preferred_port = 17520;
  target_latency_ms = 120;
}

-- The "type" of a session message, and the message as the fields that go into its JSON text.
pub data SessionType : Type 0 where
  hello config state : SessionType

pub record Session : Type 0 where
  pub type : SessionType
  pub protocol : ℕ
  pub header_size : ℕ
  pub format : List ℕ
  pub sample_rate : ℕ
  pub channels : ℕ
  pub frames_per_packet : ℕ
  pub config_epoch : ℕ
  pub suggested_target_latency_ms : ℕ
  pub host_playing : Bool

-- broadcastText of a session message, and broadcastBinary of a packet.
pub data Broadcast : Type 0 where
  session : Session → Broadcast
  packet : List ℕ → Broadcast

abbrev pub poll_interval_ms : ℕ
poll_interval_ms = 2

abbrev pub silence_keepalive_ms : ℕ
silence_keepalive_ms = 250

-- What the meters need of JUCE and of float: a channel's magnitude, and the product by 0.85.
pub record MeterOps (F : FloatOps) : Type 0 where
  pub magnitude : AudioBuffer F.Float → ℕ → F.Float
  pub times_decay : F.Float → F.Float

-- juce::jlimit (1, 2, numChannels)
abbrev pub limit_channels : ℕ → ℕ
limit_channels n = if ltb n 1 then 1 else if ltb 2 n then 2 else n

-- std::vector::resize
abbrev pub resize : {A : Type 0} → A → ℕ → List A → List A
resize x n xs = take n xs ++ replicate (n - length xs) x

-- uint32_t now - lastPacketTimeMs
abbrev pub elapsed : ℕ → ℕ → ℕ
elapsed now last = (now + 2 ^ 32 - last) % 2 ^ 32

abbrev pub silent : PacketInfo → PacketInfo
silent info = record info { flags = bit_or info.flags silence }

module _ (F : FloatOps) where
  open F use {Float}

  -- The bytes of the packet buffer, the header and the samples written over what it held.
  unfoldable pub serialise : List ℕ → PacketInfo → List Float → List ℕ
  serialise buffer info interleaved =
      let size = packet_size info in
      let sized = if length buffer == size then buffer else resize 0 size buffer in
      write_samples F (write_header sized info) header_bytes
        (take (info.frames * info.channels) interleaved) info.format

module _ (J : AbstractFifo) (F : FloatOps) where
  open F use {Float, ltf, zero_float}

  pub record Engine : Type 0 where
    pub settings : Settings
    pub ring : RingBuffer J Float
    pub current_sample_rate : ℕ
    pub current_channels : ℕ
    pub config_epoch : ℕ
    pub server_running : Bool
    pub host_playing : Bool
    pub discontinuity_pending : Bool
    pub peak_left : Float
    pub peak_right : Float
    pub scratch : List Float
    pub packet_buffer : List ℕ
    pub sequence : ℕ
    pub sample_clock : ℕ
    pub last_packet_time_ms : ℕ
    pub last_host_playing : Bool

  -- makeSessionJson, up to the JSON text.
  unfoldable pub make_session : Engine → SessionType → Session
  make_session e t = record {
    type = t;
    protocol = protocol_version;
    header_size = header_bytes;
    format = format_name e.settings.format;
    sample_rate = e.current_sample_rate;
    channels = e.current_channels;
    frames_per_packet = e.settings.frames_per_packet;
    config_epoch = e.config_epoch;
    suggested_target_latency_ms = e.settings.target_latency_ms;
    host_playing = e.host_playing;
  }

  unfoldable pub broadcast_config : Engine → List Broadcast
  broadcast_config e = if e.server_running then session (make_session e config) ∷ [] else []

  -- configEpoch.fetch_add (1) on a uint16_t, and the pending discontinuity.
  abbrev pub bump_epoch : Engine → Engine
  bump_epoch e = record e {
    config_epoch = (e.config_epoch + 1) % 2 ^ 16;
    discontinuity_pending = true;
  }

  unfoldable pub set_settings : Engine → Settings → Engine × List Broadcast
  unfolding broadcast_config
  set_settings e new =
      let format_changed =
        not (byte_of_format new.format == byte_of_format e.settings.format)
        || not (new.frames_per_packet == e.settings.frames_per_packet) in
      let q = record e { settings = new } in
      let bumped = bump_epoch q in
      if format_changed then (bumped, broadcast_config bumped) else (q, [])

  unfoldable pub prepare : Engine → ℕ → ℕ → ℕ → Engine × List Broadcast
  unfolding broadcast_config
  prepare e sample_rate maximum_block_size num_channels =
      let channels = limit_channels num_channels in
      let capacity = max (max (sample_rate / 2) (maximum_block_size * 4)) 8192 in
      let q = record e {
        current_sample_rate = sample_rate;
        current_channels = channels;
        ring = Ring.prepare J zero_float e.ring channels capacity;
      } in
      let bumped = bump_epoch q in (bumped, broadcast_config bumped)

  unfoldable pub release : Engine → Engine
  release e = record e { ring = Ring.release J zero_float e.ring }

  unfoldable pub set_host_playing : Engine → Bool → Engine
  set_host_playing e is_playing = record e { host_playing = is_playing }

  -- juce::jmax (magnitude, previous * meterDecay) for one channel; `source >= 0` means that the
  -- buffer has a channel.
  unfoldable pub meter : MeterOps F → AudioBuffer Float → ℕ → Float → Float
  meter m buffer channel peak =
      let num_channels = min 2 buffer.channels in
      let magnitude =
        if num_channels == 0
        then zero_float
        else m.magnitude buffer (min channel (num_channels - 1)) in
      let previous = m.times_decay peak in if ltf magnitude previous then previous else magnitude

  unfoldable pub push_audio : MeterOps F → Engine → AudioBuffer Float → Engine
  unfolding meter
  push_audio m e buffer =
      let q = record e {
        peak_left = meter m buffer 0 e.peak_left;
        peak_right = meter m buffer 1 e.peak_right;
        ring = (Ring.write J e.ring buffer).0;
      } in
      if e.server_running then q else e

  -- The head of `sendPacket`: the numbers that it stamps on the template.
  unfoldable pub stamp : Engine → ℕ → PacketInfo → Engine × PacketInfo
  stamp e time_ms template =
      let clock = if e.discontinuity_pending then 0 else e.sample_clock in
      let flags =
        if e.discontinuity_pending
        then bit_or template.flags (bit_or discontinuity config_changed)
        else template.flags in
      (
        record e {
          sequence = (e.sequence + 1) % 2 ^ 32;
          discontinuity_pending = false;
          sample_clock = (clock + template.frames) % 2 ^ 64;
        },
        record template {
          sequence = e.sequence;
          sender_time_ms = time_ms % 2 ^ 32;
          flags = flags;
          sample_clock = clock;
        },
      )

  unfoldable pub send_packet : Engine → ℕ → PacketInfo → List Float → Engine × List Broadcast
  unfolding stamp serialise
  send_packet e time_ms template interleaved =
      let (q, info) = stamp e time_ms template in
      let bytes = serialise F e.packet_buffer info interleaved in
      (record q { packet_buffer = bytes }, packet bytes ∷ [])

  -- The template that a round of `run` fills in.
  unfoldable pub template : Engine → PacketInfo
  template e = record default_info {
    format = e.settings.format;
    channels = max 1 e.current_channels % 2 ^ 8;
    sample_rate = e.current_sample_rate % 2 ^ 32;
    frames = e.settings.frames_per_packet % 2 ^ 16;
    config_epoch = e.config_epoch;
  }

  -- The head of a round: room in the scratch buffer, and the news that the transport has changed.
  unfoldable pub begin_round : Engine → Engine × List Broadcast
  unfolding template make_session
  begin_round e =
      let info = template e in
      let samples = info.frames * info.channels in
      let roomy =
        if ltb (length e.scratch) samples then resize zero_float samples e.scratch else e.scratch in
      let q = record e { scratch = roomy; last_host_playing = e.host_playing } in
      let changed =
        (e.host_playing && not e.last_host_playing)
        || (not e.host_playing && e.last_host_playing) in
      (q, if changed then session (make_session q state) ∷ [] else [])

  -- The end of a round that sends.
  unfoldable pub finish_round : Engine → ℕ → ℕ → PacketInfo → Engine × List Broadcast
  unfolding send_packet
  finish_round e now send_time info =
      let flagged = if e.last_host_playing then info else silent info in
      let (q, sent) = send_packet e send_time flagged e.scratch in
      (record q { last_packet_time_ms = now }, sent)

  unfoldable pub have_audio : Engine → PacketInfo → Bool
  have_audio e info = ltb 0 e.ring.channels && leb info.frames (J.num_ready e.ring.fifo)

  -- The middle of a round: audio from the ring, silence where none has come for long, or nothing.
  unfoldable pub middle_round : Engine → ℕ → ℕ → PacketInfo → Engine × List Broadcast
  unfolding have_audio finish_round
  middle_round e now send_time info =
      let samples = info.frames * info.channels in
      let (ring, out, frames) = Ring.read J e.ring info.frames in
      let drained = record e { ring = ring; scratch = out ++ drop (length out) e.scratch } in
      let quiet = record e { scratch = replicate samples zero_float ++ drop samples e.scratch } in
      if have_audio e info
      then (if ltb frames info.frames
          then (drained, [])
          else finish_round drained now send_time info)
      else if ltb (elapsed now e.last_packet_time_ms) silence_keepalive_ms
      then (e, [])
      else finish_round quiet now send_time (silent info)

  -- One round of the loop in `run`, at the two readings of the millisecond counter.
  unfoldable pub round : Engine → ℕ → ℕ → Engine × List Broadcast
  unfolding begin_round middle_round template
  round e now send_time =
      let (q, news) = begin_round e in
      let (r, sent) = middle_round q now send_time (template e) in (r, news ++ sent)

  -- `start`, once the server has its port, and the head of `run` in the thread that it starts.
  unfoldable pub start_thread : Engine → ℕ → Engine
  start_thread e now =
      let up = record e {
        server_running = true;
        discontinuity_pending = true;
        last_packet_time_ms = now;
        last_host_playing = e.host_playing;
      } in
      if e.server_running then e else up

  -- `stop`, as far as the streaming goes.
  unfoldable pub stop_thread : Engine → Engine
  stop_thread e = record e { server_running = false }

  -- The calls of the threads, as the engine takes them one after the other: a round of the streaming
  -- thread at its two clock readings, the audio thread's calls, and the plugin's, `start` and `stop`
  -- among them.
  pub data Call : Type 0 where
    rounded : ℕ → ℕ → Call
    settings_set : Settings → Call
    prepared : ℕ → ℕ → ℕ → Call
    released : Call
    playing_set : Bool → Call
    audio_pushed : AudioBuffer Float → Call
    started : ℕ → Call
    stopped : Call

  unfoldable pub call : MeterOps F → Engine → Call → Engine × List Broadcast
  unfolding round set_settings prepare release set_host_playing push_audio start_thread stop_thread
  call m e (rounded now send_time) = round e now send_time
  call m e (settings_set new) = set_settings e new
  call m e (prepared sample_rate maximum_block_size num_channels) =
      prepare e sample_rate maximum_block_size num_channels
  call m e released = (release e, [])
  call m e (playing_set is_playing) = (set_host_playing e is_playing, [])
  call m e (audio_pushed buffer) = (push_audio m e buffer, [])
  call m e (started now) = (start_thread e now, [])
  call m e stopped = (stop_thread e, [])

  unfoldable pub calls : MeterOps F → Engine → List Call → Engine × List Broadcast
  unfolding call
  calls m e [] = (e, [])
  calls m e (c ∷ cs) =
      let (q, sent) = call m e c in let (r, rest) = calls m q cs in (r, sent ++ rest)
