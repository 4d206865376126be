-- ===== src/Server/Stream/Steps.antt =====
-- The steps of the server, by its callers, its acceptor and its connections' threads, in any order.
use phonepostmix.Base.{ℕ, suc, ◌≤◌, ◌≡◌, ◌≢◌, Bool, true, false, Option, List, [], ◌∷◌, ◌++◌}
use phonepostmix.Server.Socket.{Ready}
use phonepostmix.Server.Thread.{Asset, Owner, Connection}
use phonepostmix.Server.Handshake.{opened}
use phonepostmix.Server.Connection.{take_front, PumpTurn, receive, read_frame, handle_frame, finish}
use phonepostmix.Server.Stream.{
  StreamServer, new_server, set_upgrade_authorizer, set_per_client_queue_limit, stop, start, accept,
  broadcast_binary, broadcast_text,
}
use phonepostmix.WebSocket.{Opcode}

-- The parts of a connection's thread that change it.
pub data Part (o : Owner) (c d : Connection) : Type 0 where
  opens : d ≡ (opened o c).1 → Part o c d
  takes : d ≡ (take_front o [] c).1 → Part o c d
  receives : (t : PumpTurn) → d ≡ (receive t c).1 → Part o c d
  parses : d ≡ (read_frame c).1 → Part o c d
  answers : (op : Opcode) (payload : List ℕ) → d ≡ (handle_frame o op payload c).1 → Part o c d
  ends : d ≡ (finish o c).1 → Part o c d

pub data Step (s t : StreamServer) : Type 0 where
  authorizes : (check : List ℕ → Bool) → t ≡ set_upgrade_authorizer check s → Step s t
  limits : (limit : ℕ) → t ≡ set_per_client_queue_limit limit s → Step s t
  starts :
      (binds : ℕ → Bool) (port : ℕ) (provider : List ℕ → Option (Option Asset))
      (has_listener : Bool)
      → t ≡ (start binds port provider has_listener s).0
      → Step s t
  stops : t ≡ stop s → Step s t
  accepts :
      (r : Ready) (accepted : Bool) → s.has_acceptor ≡ true → t ≡ (accept r accepted s).0 → Step s t
  moves :
      (xs ys : List Connection) (c d : Connection)
      → s.connections ≡ xs ++ c ∷ ys
      → Part s.owner c d
      → t ≡ record s { connections = xs ++ d ∷ ys }
      → Step s t
  sends_binary : (data_bytes : List ℕ) → t ≡ broadcast_binary data_bytes s → Step s t
  sends_text : (message : List ℕ) → t ≡ broadcast_text message s → Step s t

pub data Reachable (to_base64 : List ℕ → List ℕ) : ℕ → StreamServer → Type 0 where
  initially : Reachable to_base64 0 (new_server to_base64)
  after :
      {n : ℕ} {s t : StreamServer}
      → Reachable to_base64 n s
      → Step s t
      → Reachable to_base64 (suc n) t

-- The client ids, in the order of the connections.
unfoldable pub ids : List Connection → List ℕ
ids [] = []
ids (c ∷ connections) = c.client_id ∷ ids connections

-- Strictly ascending from `low` on, and below `high`.
unfoldable pub AscendsIn : ℕ → ℕ → List ℕ → Type 0
AscendsIn low high [] = low ≤ high
AscendsIn low high (x ∷ xs) = (low ≤ x) × AscendsIn (suc x) high xs

pub record IsConsistent (s : StreamServer) : Type 0 where
  pub distinct : AscendsIn 1 s.next_client_id (ids s.connections)
  pub idle :
      s.is_running ≡ false
      → (s.has_acceptor ≡ false)
        × (s.has_listening_socket ≡ false)
        × (s.bound_port ≡ 0)
        × (s.connections ≡ [])
  pub busy :
      s.is_running ≡ true
      → (s.has_acceptor ≡ true) × (s.has_listening_socket ≡ true) × (s.bound_port ≢ 0)
