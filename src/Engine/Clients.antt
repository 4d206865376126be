-- ===== src/Engine/Clients.antt =====
-- The client list of `StreamEngine`, which its listener's calls keep under the state's mutex, each as
-- one step. juce::JSON and juce::var are a parameter.
pub mod Sessions
pub mod Messages
pub mod Tests
use phonepostmix.Base.{
  ℕ, ◌==◌, Bool, true, false, not, bytes_eq, if◌then◌else◌, Option, none, some, List, [], ◌∷◌, ◌++◌,
}
use phonepostmix.Base.Int.{ℤ, pos}
use phonepostmix.Engine.{Engine, Broadcast, session, hello, make_session}
use phonepostmix.Http.{bytes}
use phonepostmix.Ring.Fifo.{AbstractFifo}
use phonepostmix.Server.Thread.{Effect, sent, connected, disconnected, received, closed, threw}
use phonepostmix.Wire.{FloatOps}

-- `property v name default` is getProperty; `of_int` and the like are var's constructors, and `to_int`
-- and the like its conversions.
pub record JsonOps : Type 1 where
  pub Var : Type 0
  pub Double : Type 0
  pub zero_double : Double
  pub parse : List ℕ → Var
  pub is_object : Var → Bool
  pub property : Var → List ℕ → Var → Var
  pub void : Var
  pub of_int : ℤ → Var
  pub of_double : Double → Var
  pub of_bool : Bool → Var
  pub to_string : Var → List ℕ
  pub to_int : Var → ℤ
  pub to_double : Var → Double
  pub to_bool : Var → Bool

module _ (S : JsonOps) where
  open S use {Var, Double}

  pub record ClientInfo : Type 0 where
    pub id : ℕ
    pub user_agent : List ℕ
    pub audio_path : List ℕ
    pub buffer_ms : ℤ
    pub target_ms : ℤ
    pub underruns : ℤ
    pub drift_ppm : Double
    pub playing : Bool

  abbrev pub new_client : ℕ → ClientInfo
  new_client id = record {
    id = id;
    user_agent = [];
    audio_path = [];
    buffer_ms = pos 0;
    target_ms = pos 0;
    underruns = pos 0;
    drift_ppm = S.zero_double;
    playing = false;
  }

  abbrev pub append_client : ℕ → List ClientInfo → List ClientInfo
  append_client id clients = clients ++ new_client id ∷ []

  unfoldable pub stream_client_connected :
      {J : AbstractFifo} {F : FloatOps}
      → Engine J F
      → ℕ
      → List ClientInfo
      → List ClientInfo × List Broadcast
  stream_client_connected {J} {F} e id clients =
      (append_client id clients, session (make_session J F e hello) ∷ [])

  -- std::remove_if and `erase`.
  unfoldable pub stream_client_disconnected : ℕ → List ClientInfo → List ClientInfo
  stream_client_disconnected id [] = []
  stream_client_disconnected id (c ∷ clients) =
      let rest = stream_client_disconnected id clients in if c.id == id then rest else c ∷ rest

  abbrev pub message_type : Var → List ℕ
  message_type parsed = S.to_string (S.property parsed (bytes "type") S.void)

  abbrev pub int_property : Var → List ℕ → ℤ
  int_property parsed name = S.to_int (S.property parsed name (S.of_int (pos 0)))

  abbrev pub on_ready : Var → ClientInfo → ClientInfo
  on_ready parsed entry = record entry {
    user_agent = S.to_string (S.property parsed (bytes "ua") S.void);
    audio_path = S.to_string (S.property parsed (bytes "path") S.void);
  }

  abbrev pub on_set_latency : Var → ClientInfo → ClientInfo
  on_set_latency parsed entry = record entry { target_ms = int_property parsed (bytes "ms") }

  abbrev pub on_stat : Var → ClientInfo → ClientInfo
  on_stat parsed entry = record entry {
    buffer_ms = int_property parsed (bytes "bufferMs");
    target_ms = int_property parsed (bytes "targetMs");
    underruns = int_property parsed (bytes "underruns");
    drift_ppm = S.to_double (S.property parsed (bytes "driftPpm") (S.of_double S.zero_double));
    playing = S.to_bool (S.property parsed (bytes "playing") (S.of_bool false));
  }

  -- What a message does to its sender's entry.
  unfoldable pub take_message : Var → ClientInfo → ClientInfo
  take_message parsed entry =
      let type = message_type parsed in
      if bytes_eq type (bytes "ready")
      then on_ready parsed entry
      else if bytes_eq type (bytes "setLatency")
      then on_set_latency parsed entry
      else if bytes_eq type (bytes "stat")
      then on_stat parsed entry
      else entry

  -- std::find_if, and the change of the entry found.
  unfoldable pub change_entry : ℕ → (ClientInfo → ClientInfo) → List ClientInfo → List ClientInfo
  change_entry id change [] = []
  change_entry id change (c ∷ clients) =
      let rest = change_entry id change clients in
      if c.id == id then change c ∷ clients else c ∷ rest

  unfoldable pub stream_text_message_received : ℕ → List ℕ → List ClientInfo → List ClientInfo
  unfolding take_message change_entry
  stream_text_message_received id message clients =
      let parsed = S.parse message in
      if not (S.is_object parsed) then clients else change_entry id (take_message parsed) clients

  -- The listener's calls of a connection's thread, one after the other.
  unfoldable pub listen : List Effect → List ClientInfo → List ClientInfo
  unfolding stream_client_disconnected stream_text_message_received
  listen [] clients = clients
  listen (sent out ∷ effects) clients = listen effects clients
  listen (closed ∷ effects) clients = listen effects clients
  listen (threw ∷ effects) clients = listen effects clients
  listen (connected id ∷ effects) clients = listen effects (append_client id clients)
  listen (disconnected id ∷ effects) clients =
      listen effects (stream_client_disconnected id clients)
  listen (received id message ∷ effects) clients =
      listen effects (stream_text_message_received id message clients)
