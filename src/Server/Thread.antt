-- ===== src/Server/Thread.antt =====
-- The thread of `StreamServer::Connection`: its state, and its parts as a monad. What the socket, the
-- clock, the exit flag and the other threads do is the argument of each loop, the list of its turns;
-- a loop whose list ends first is still running. What the thread does to the outside is a list of
-- effects, in order.
use phonepostmix.Base.{ℕ, Bool, false, if◌then◌else◌, Option, none, some, List, [], ◌∷◌, ◌++◌}
use phonepostmix.Server.Queue.{SendQueue}
use phonepostmix.Server.Socket.{WriteTurn, write_all}
use phonepostmix.WebSocket.{FrameParser, new_parser}

-- The bytes, and what `size` counts.
pub record Asset : Type 0 where
  pub content : List ℕ
  pub mime_type : List ℕ

-- The part of the server that a connection reads, and the Base64 encoding of JUCE. An asset provider
-- gives `none` where it throws.
pub record Owner : Type 0 where
  pub asset_provider : Option (List ℕ → Option (Option Asset))
  pub upgrade_authorizer : Option (List ℕ → Bool)
  pub has_listener : Bool
  pub queue_limit_bytes : ℕ
  pub to_base64 : List ℕ → List ℕ

pub record Connection : Type 0 where
  pub client_id : ℕ
  pub upgraded : Bool
  pub finished : Bool
  pub outgoing : SendQueue
  pub parser : FrameParser

-- `max_payload_size` is the parser's default.
abbrev pub new_connection : ℕ → ℕ → Connection
new_connection client_id max_payload_size = record {
  client_id = client_id;
  upgraded = false;
  finished = false;
  outgoing = record { queue = []; queued_bytes = 0; drops = 0 };
  parser = new_parser max_payload_size;
}

-- Bytes that the socket has taken, the calls of the listener, the closing of the socket,
-- and an exception that nothing in the thread catches.
pub data Effect : Type 0 where
  sent : List ℕ → Effect
  connected disconnected : ℕ → Effect
  received : ℕ → List ℕ → Effect
  closed threw : Effect

-- A part of the thread: its effects, the connection, and its result, or `none` while it runs and
-- where it has thrown; then `threw` is the last effect.
abbrev pub Thread : Type 0 → Type 0
Thread A = Connection → List Effect × Connection × Option A

infixl 5 ◌>>=◌ ◌>>◌
abbrev pub ◌>>=◌ : {A B : Type 0} → Thread A → (A → Thread B) → Thread B
◌>>=◌ m f c =
    let (effects, d, r) = m c in
    elim r [
      | none ↦ (effects, d, none)
      | some a ↦ let (more, e, s) = f a d in (effects ++ more, e, s)
    ]

abbrev pub ◌>>◌ : {A B : Type 0} → Thread A → Thread B → Thread B
m >> k = m >>= λ _. k

abbrev pub return : {A : Type 0} → A → Thread A
return a c = ([], c, some a)

abbrev pub running : {A : Type 0} → Thread A
running c = ([], c, none)

abbrev pub throws : {A : Type 0} → Thread A
throws c = (threw ∷ [], c, none)

abbrev pub notify : Owner → Effect → List Effect
notify o e = if o.has_listener then e ∷ [] else []

pub record WriteScript : Type 0 where
  pub start : ℕ
  pub turns : List WriteTurn

-- `writeAll`
unfoldable pub send : List ℕ → WriteScript → Thread Bool
send data_bytes s c = let (out, r) = write_all data_bytes s.start s.turns in (sent out ∷ [], c, r)

-- The listener's calls among the effects.
unfoldable pub notes : List Effect → List Effect
notes [] = []
notes (sent out ∷ effects) = notes effects
notes (closed ∷ effects) = notes effects
notes (threw ∷ effects) = notes effects
notes (connected id ∷ effects) = connected id ∷ notes effects
notes (disconnected id ∷ effects) = disconnected id ∷ notes effects
notes (received id message ∷ effects) = received id message ∷ notes effects
