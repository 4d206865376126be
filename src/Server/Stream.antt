-- ===== src/Server/Stream.antt =====
-- `StreamServer` itself: `start`, `stop`, the rounds of `Acceptor::run`, the broadcasts. The connections
-- move by the parts of their threads; a part, and a call of the server, is one step, as the mutexes
-- and the atomics make it. `int` values are their 32 bits. The counter `drops` is kept by
-- connection, as each queue's own part of it.
pub mod Ports
pub mod Steps
pub mod Invariant
pub mod Safety
pub mod Broadcast
pub mod Tests
use phonepostmix.Base.{
  ℕ, zero, suc, ◌+◌, ◌%◌, ◌^◌, ◌≡◌, Bool, true, false, not, ◌&&◌, ◌==◌, if◌then◌else◌, Option, none,
  some, List, [], ◌∷◌, ◌++◌, map, length,
}
use phonepostmix.Server.Queue.{enqueue}
use phonepostmix.Server.Socket.{Ready, failed, not_yet, ready}
use phonepostmix.Server.Thread.{Asset, Owner, Connection, new_connection}
use phonepostmix.WebSocket.{binary, write_frame, write_text_frame}

pub record StreamServer : Type 0 where
  pub owner : Owner
  pub is_running : Bool
  pub has_acceptor : Bool
  pub has_listening_socket : Bool
  pub bound_port : ℕ
  pub connections : List Connection
  -- The bits of a std::atomic<int>; up to 2 ^ 31 ids they are the int's value.
  pub next_client_id : ℕ

-- The default of the parser's constructor, 1u << 20.
abbrev pub max_payload_size : ℕ
max_payload_size = 1048576

-- `to_base64` is JUCE's.
abbrev pub new_server : (List ℕ → List ℕ) → StreamServer
new_server to_base64 = record {
  owner = record {
    asset_provider = none;
    upgrade_authorizer = none;
    has_listener = false;
    queue_limit_bytes = 2097152;
    to_base64 = to_base64;
  };
  is_running = false;
  has_acceptor = false;
  has_listening_socket = false;
  bound_port = 0;
  connections = [];
  next_client_id = 1;
}

abbrev pub set_upgrade_authorizer : (List ℕ → Bool) → StreamServer → StreamServer
set_upgrade_authorizer authorizer s = record s {
  owner = record s.owner { upgrade_authorizer = some authorizer };
}

abbrev pub set_per_client_queue_limit : ℕ → StreamServer → StreamServer
set_per_client_queue_limit limit s = record s {
  owner = record s.owner { queue_limit_bytes = limit };
}

-- The threads of the connections that `disconnect` joins do their last parts before.
unfoldable pub stop : StreamServer → StreamServer
stop s =
    let torn_down = record s {
      is_running = false;
      has_acceptor = false;
      has_listening_socket = false;
      bound_port = 0;
      connections = [];
    } in
    if not s.is_running && not s.has_acceptor then s else torn_down

abbrev pub port_search_range : ℕ
port_search_range = 20

-- The loop of `start`, with `count` ports left: `binds` is what createListener returns for a port.
unfoldable pub search_port : (ℕ → Bool) → ℕ → ℕ → ℕ → ℕ
search_port binds bound port zero = bound
search_port binds bound port (suc count) =
    let rest = search_port binds bound (suc port) count in if binds port then port else rest

unfoldable pub start :
    (ℕ → Bool) → ℕ → (List ℕ → Option (Option Asset)) → Bool → StreamServer → StreamServer × Bool
unfolding stop search_port
start binds preferred_port provider has_listener s =
    let stopped = stop s in
    let prepared = record stopped {
      owner = record stopped.owner { asset_provider = some provider; has_listener = has_listener };
      has_listening_socket = true;
      bound_port = search_port binds stopped.bound_port preferred_port port_search_range;
    } in
    if prepared.bound_port == 0
    then (record prepared { has_listening_socket = false }, false)
    else (record prepared { is_running = true; has_acceptor = true }, true)

-- std::remove_if and `erase`.
unfoldable pub reap : List Connection → List Connection
reap [] = []
reap (c ∷ connections) = if c.finished then reap connections else c ∷ reap connections

-- A round of the acceptor, and whether its loop goes on; `accepted` is whether waitForNextConnection
-- gives a socket.
unfoldable pub accept : Ready → Bool → StreamServer → StreamServer × Bool
unfolding reap
accept failed accepted s = (s, false)
accept not_yet accepted s = (s, true)
accept ready false s = (s, true)
accept ready true s =
    let grown = record s {
      connections = reap s.connections ++ new_connection s.next_client_id max_payload_size ∷ [];
      next_client_id = (s.next_client_id + 1) % 2 ^ 32;
    } in
    (grown, true)

unfoldable pub num_clients : List Connection → ℕ
num_clients [] = 0
num_clients (c ∷ connections) =
    if c.upgraded then suc (num_clients connections) else num_clients connections

abbrev pub get_num_clients : StreamServer → ℕ
get_num_clients s = num_clients s.connections

-- `enqueue` of a connection.
abbrev pub enqueue_on : Owner → List ℕ → Bool → Connection → Connection
enqueue_on o frame droppable c = record c {
  outgoing = enqueue c.upgraded o.queue_limit_bytes c.outgoing frame droppable;
}

unfoldable pub broadcast_binary : List ℕ → StreamServer → StreamServer
broadcast_binary data_bytes s = record s {
  connections = map (enqueue_on s.owner (write_frame [] binary data_bytes) true) s.connections;
}

unfoldable pub broadcast_text : List ℕ → StreamServer → StreamServer
broadcast_text message s = record s {
  connections = map (enqueue_on s.owner (write_text_frame [] message) false) s.connections;
}
