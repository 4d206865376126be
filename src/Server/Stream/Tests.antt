-- ===== src/Server/Stream/Tests.antt =====
-- The server at concrete ports and connections.
use phonepostmix.Base.{
  ℕ, ◌≡◌, ◌⊎◌, refl, arith, Bool, true, false, ltb, Option, none, some, List, [], ◌∷◌, ◌++◌,
}
use phonepostmix.Server.Socket.{ready}
use phonepostmix.Server.Thread.{Asset, Connection, new_connection}
use phonepostmix.Server.Stream.{
  StreamServer, new_server, stop, search_port, start, reap, accept, num_clients, get_num_clients,
  broadcast_binary, broadcast_text, max_payload_size,
}
use phonepostmix.Server.Stream.Ports.{Started, NotStarted, start_lem}
use phonepostmix.Server.Stream.Steps.{
  starts, accepts, moves, opens, Reachable, initially, after, IsConsistent,
}
use phonepostmix.Server.Stream.Invariant.{WithNext}
use phonepostmix.Server.Stream.Safety.{Reachable-IsConsistent}
use phonepostmix.Server.Stream.Broadcast.{Each, Gets, broadcast_lem}
use phonepostmix.WebSocket.{binary, write_frame, write_text_frame}

abbrev pub no_base64 : List ℕ → List ℕ
no_base64 data_bytes = []

abbrev pub no_assets : List ℕ → Option (Option Asset)
no_assets path = some none

-- Two other programs have the first two ports.
abbrev pub binds : ℕ → Bool
binds port = ltb 7432 port

abbrev pub fresh : StreamServer
fresh = new_server no_base64

abbrev pub started : StreamServer
started = (start binds 7431 no_assets true fresh).0

start-busy_ports : (started.bound_port ≡ 7433) × (started.is_running ≡ true)
unfolding start stop search_port
start-busy_ports = (refl, refl)

-- Port 0 is bound, and then taken for none.
start-zero : (start (λ port. true) 0 no_assets true fresh).1 ≡ false
unfolding start stop search_port
start-zero = refl

pub fresh-IsConsistent : IsConsistent fresh
fresh-IsConsistent = (Reachable-IsConsistent no_base64 0 fresh (omega arith) initially).0

start_lem_example :
    Started binds 7431 (start binds 7431 no_assets true fresh)
    ⊎ NotStarted binds 7431 (start binds 7431 no_assets true fresh)
start_lem_example = start_lem binds 7431 no_assets true fresh fresh-IsConsistent (λ e. omega arith)

abbrev with_one : StreamServer
with_one = (accept ready true started).0

abbrev with_two : StreamServer
with_two = (accept ready true with_one).0

abbrev client : ℕ → Connection
client id = new_connection id max_payload_size

abbrev one_client : StreamServer
one_client = record with_two {
  connections = [] ++ record (client 1) { upgraded = true } ∷ client 2 ∷ [];
}

one_client-Reachable : Reachable no_base64 4 one_client
unfolding start stop search_port accept reap
one_client-Reachable =
    after
      (after
        (after (after initially (starts binds 7431 no_assets true refl))
          (accepts ready true refl refl))
        (accepts ready true refl refl))
      (moves [] (client 2 ∷ []) (client 1) (record (client 1) { upgraded = true }) refl (opens refl)
        refl)

one_client-count : get_num_clients one_client ≡ 1
unfolding num_clients
one_client-count = refl

Reachable-IsConsistent_example : WithNext 5 one_client
Reachable-IsConsistent_example =
    Reachable-IsConsistent no_base64 4 one_client (omega arith) one_client-Reachable

broadcast_lem_example :
    Each
      (Gets (record { frame = write_frame [] binary (4 ∷ 2 ∷ []); droppable = true }))
      one_client.connections
      (broadcast_binary (4 ∷ 2 ∷ []) one_client).connections
    × Each
        (Gets (record { frame = write_text_frame [] (4 ∷ 2 ∷ []); droppable = false }))
        one_client.connections
        (broadcast_text (4 ∷ 2 ∷ []) one_client).connections
    × (get_num_clients (broadcast_binary (4 ∷ 2 ∷ []) one_client) ≡ get_num_clients one_client)
    × (get_num_clients (broadcast_text (4 ∷ 2 ∷ []) one_client) ≡ get_num_clients one_client)
broadcast_lem_example = broadcast_lem one_client (4 ∷ 2 ∷ [])
