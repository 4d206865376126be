-- ===== src/Processor.antt =====
-- plugin/PluginProcessor.h and plugin/PluginProcessor.cpp: the plugin around the engine. The host's
-- answers are arguments.
pub mod State
pub mod Block
mod Tests
use phonepostmix.Base.{
  ℕ, zero, suc, ◌-◌, ◌%◌, ◌==◌, Bool, true, false, not, ◌&&◌, ◌||◌, if◌then◌else◌, Option, none,
  some, List, [], ◌∷◌,
}
use phonepostmix.Engine
use phonepostmix.Engine.{Broadcast, MeterOps, Settings, set_settings, push_audio, set_host_playing}
use phonepostmix.Engine.Addresses.{IpAddress, StringOps}
use phonepostmix.Engine.Assets.{Resources}
use phonepostmix.Engine.Clients.{JsonOps}
use phonepostmix.Engine.Pairing.{TextOps}
use phonepostmix.Engine.Service.{
  StreamEngine, start_engine, stop_engine, set_preferred_address, preferred_address_of,
}
use phonepostmix.Http.{bytes}
use phonepostmix.Ring.{AudioBuffer}
use phonepostmix.Ring.Fifo.{AbstractFifo}
use phonepostmix.Server.Thread.{Asset}
use phonepostmix.Wire.{FloatOps, format_of_byte, byte_of_format}

-- juce::ValueTree and juce::var, as the saved state uses them. `write_to_stream` gives the block of
-- memory, and `get_property t name default` is getProperty.
pub record ValueTreeOps : Type 1 where
  pub Tree : Type 0
  pub Var : Type 0
  pub Data : Type 0
  pub new_tree : List ℕ → Tree
  pub has_type : Tree → List ℕ → Bool
  pub set_property : Tree → List ℕ → Var → Tree
  pub get_property : Tree → List ℕ → Var → Var
  pub write_to_stream : Tree → Data
  pub read_from_data : Data → Tree
  pub of_int : ℕ → Var
  pub of_text : List ℕ → Var
  pub of_bool : Bool → Var
  pub to_int : Var → ℕ
  pub to_text : Var → List ℕ
  pub to_bool : Var → Bool

abbrev pub state_tag : List ℕ
state_tag = bytes "PhonePostMixState"

-- juce::AudioChannelSet.
pub record ChannelSets : Type 1 where
  pub ChannelSet : Type 0
  pub same : ChannelSet → ChannelSet → Bool
  pub mono : ChannelSet
  pub stereo : ChannelSet

unfoldable pub is_buses_layout_supported : (C : ChannelSets) → C.ChannelSet → C.ChannelSet → Bool
is_buses_layout_supported C main_input main_output =
    if not (C.same main_output C.mono) && not (C.same main_output C.stereo)
    then false
    else C.same main_input main_output

module _ (J : AbstractFifo) (F : FloatOps) (S : JsonOps) (A : StringOps) (T : TextOps) where
  pub record Processor : Type 0 where
    pub engine : StreamEngine J F S A T
    pub start_failed : Bool

  abbrev pub start_streaming :
      List IpAddress → (ℕ → Bool) → Resources → Processor → Processor × Bool
  start_streaming all binds resources p =
      let r = start_engine J F S A T all binds resources p.engine in
      (record p { engine = r.0; start_failed = not r.1 }, r.1)

  abbrev pub stop_streaming : Processor → Processor
  stop_streaming p = record p { engine = stop_engine J F S A T p.engine; start_failed = false }

  abbrev pub prepare_to_play : ℕ → ℕ → ℕ → Processor → Processor × List Broadcast
  prepare_to_play sample_rate maximum_block_size num_inputs p =
      let r = Engine.prepare J F p.engine.streaming sample_rate maximum_block_size num_inputs in
      (record p { engine = record p.engine { streaming = r.0 } }, r.1)

  abbrev pub release_resources : Processor → Processor
  release_resources p = record p {
    engine = record p.engine { streaming = Engine.release J F p.engine.streaming };
  }

  -- The loop that clears the channels from `channel` on.
  unfoldable pub clear_channels : ℕ → ℕ → AudioBuffer F.Float → AudioBuffer F.Float
  clear_channels zero channel buffer = buffer
  clear_channels (suc count) channel buffer =
      clear_channels count (suc channel)
        (record buffer { sample = λ c i. if c == channel then F.zero_float else buffer.sample c i })

  -- `is_playing` is what the play head's position tells, if there is one.
  abbrev pub tell_playing : Option Bool → Processor → Processor
  tell_playing none p = p
  tell_playing (some is_playing) p = record p {
    engine = record p.engine { streaming = set_host_playing J F p.engine.streaming is_playing };
  }

  abbrev pub push : MeterOps F → AudioBuffer F.Float → Processor → Processor
  push m buffer p = record p {
    engine = record p.engine { streaming = push_audio J F m p.engine.streaming buffer };
  }

  unfoldable pub process_block :
      MeterOps F
      → ℕ
      → ℕ
      → Bool
      → Option Bool
      → AudioBuffer F.Float
      → Processor
      → AudioBuffer F.Float × Processor
  unfolding clear_channels
  process_block m inputs outputs is_non_realtime is_playing buffer p =
      let cleared = clear_channels (outputs - inputs) inputs buffer in
      let pushed = push m cleared (tell_playing is_playing p) in
      (cleared, if is_non_realtime then p else pushed)

  module _ (V : ValueTreeOps) where
    abbrev pub state_of : Processor → V.Tree
    state_of p =
        let settings = p.engine.streaming.settings in
        let t0 = V.new_tree state_tag in
        let t1 = V.set_property t0 (bytes "format") (V.of_int (byte_of_format settings.format)) in
        let t2 =
          V.set_property t1 (bytes "framesPerPacket") (V.of_int settings.frames_per_packet) in
        let t3 = V.set_property t2 (bytes "preferredPort") (V.of_int settings.preferred_port) in
        let t4 =
          V.set_property t3 (bytes "targetLatencyMs") (V.of_int settings.target_latency_ms) in
        let t5 =
          V.set_property t4 (bytes "address")
            (V.of_text (preferred_address_of J F S A T p.engine)) in
        V.set_property t5 (bytes "streaming") (V.of_bool p.engine.streaming.server_running)

    unfoldable pub get_state_information : Processor → V.Data
    get_state_information p = V.write_to_stream (state_of p)

    abbrev pub int_property : V.Tree → List ℕ → ℕ → ℕ
    int_property state name default = V.to_int (V.get_property state name (V.of_int default))

    abbrev pub settings_from : V.Tree → Settings
    settings_from state = record {
      format = format_of_byte (int_property state (bytes "format") 0 % 256);
      frames_per_packet = int_property state (bytes "framesPerPacket") 512;
      preferred_port = int_property state (bytes "preferredPort") 17520;
      target_latency_ms = int_property state (bytes "targetLatencyMs") 120;
    }

    -- With the broadcasts, and whether a start is deferred to the message thread.
    unfoldable pub set_state_information : V.Data → Processor → Processor × List Broadcast × Bool
    set_state_information data_bytes p =
        let state = V.read_from_data data_bytes in
        let r = set_settings J F p.engine.streaming (settings_from state) in
        let address = V.to_text (V.get_property state (bytes "address") (V.of_text [])) in
        let restored = record p {
          engine = record p.engine { streaming = r.0; preferred_address = address };
        } in
        let streams = V.to_bool (V.get_property state (bytes "streaming") (V.of_bool false)) in
        if not (V.has_type state state_tag) then (p, [], false) else (restored, r.1, streams)
