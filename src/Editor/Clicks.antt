-- ===== src/Editor/Clicks.antt =====
-- plugin/PluginEditor.cpp: the start button, down to the server and back to what the window shows.
use phonepostmix.Base.{ℕ, ◌+◌, ◌≡◌, Bool, true, false, if◌then◌else◌}
use phonepostmix.Editor.{Gui, Editor}
use phonepostmix.Editor.Status.{dash, update_start_button, describe_status}
use phonepostmix.Engine.Addresses.{StringOps}
use phonepostmix.Engine.Clients.{JsonOps}
use phonepostmix.Engine.Pairing.{TextOps}
use phonepostmix.Engine.Service.Lifecycle.{IsDown}
use phonepostmix.Http.{bytes, decimal}
use phonepostmix.Processor.{Processor}
use phonepostmix.Ring.Fifo.{AbstractFifo}
use phonepostmix.Server.Stream.{port_search_range}
use phonepostmix.Server.Stream.Ports.{FirstFree, AllTaken}
use phonepostmix.Wire.{FloatOps}

module _ (J : AbstractFifo) (F : FloatOps) (S : JsonOps) (A : StringOps) (T : TextOps)
    (G : Gui) where
  -- The button, the port and the status agree with the processor.
  pub record Reports (drops : ℕ) (q : Processor J F S A T) (d : Editor J F S A T G) : Type 0 where
    pub button : d.start_button ≡ update_start_button q.engine.streaming.server_running
    pub port :
        d.port_value
        ≡ (if q.engine.streaming.server_running then decimal q.engine.server.bound_port else dash)
    pub status : d.status_label ≡ describe_status J F S A T drops q

  -- What a click leaves where the engine was running, and where it was not.
  pub record Stops (q : Processor J F S A T) (d : Editor J F S A T G) : Type 0 where
    pub down : IsDown J F S A T q.engine
    pub start_shown : d.start_button ≡ update_start_button false
    pub no_port : d.port_value ≡ dash
    pub idle_status :
        d.status_label ≡ bytes "Not streaming. Press start, then scan the code with your phone."

  pub record Started (binds : ℕ → Bool) (port : ℕ) (q : Processor J F S A T)
      (d : Editor J F S A T G) : Type 0 where
    pub offset : ℕ
    pub free : FirstFree binds port port_search_range offset
    pub runs : q.engine.streaming.server_running ≡ true
    pub stop_shown : d.start_button ≡ update_start_button true
    pub port_shown : d.port_value ≡ decimal (port + offset)

  pub record Refused (binds : ℕ → Bool) (port : ℕ) (q : Processor J F S A T)
      (d : Editor J F S A T G) : Type 0 where
    pub taken : AllTaken binds port port_search_range
    pub off : q.engine.streaming.server_running ≡ false
    pub start_shown : d.start_button ≡ update_start_button false
    pub no_port : d.port_value ≡ dash
    pub failed_status :
        d.status_label
        ≡ bytes "Could not bind a port. Another application may be using the whole range."
