-- ===== src/Server/Handshake/Tests.antt =====
-- The handshake at a concrete request.
use phonepostmix.Base.{ℕ, ◌⊎◌, true, false, bytes_eq, none, some, List, [], ◌∷◌, ◌++◌, map}
use phonepostmix.Http.{bytes, crlf}
use phonepostmix.Server.Socket.{ready}
use phonepostmix.Server.Thread.{Owner, new_connection, WriteScript}
use phonepostmix.Server.Handshake.{ReadTurn, HttpScript, read_head, handle_http}
use phonepostmix.Server.Handshake.Upgrade.{Refuses, AcceptsRead, handle_http_lem}

-- Lets one target through, and serves nothing.
abbrev pub guarded : Owner
guarded = record {
  asset_provider = none;
  upgrade_authorizer = some (λ target. bytes_eq target (bytes "/ws?t=abc"));
  has_listener = true;
  queue_limit_bytes = 100;
  to_base64 = λ data_bytes. map (λ b. 65) data_bytes;
}

abbrev first_half : List ℕ
first_half = bytes "GET /ws?t=abc HTTP/1.1" ++ crlf ++ bytes "Host: studio" ++ crlf

abbrev second_half : List ℕ
second_half =
    bytes "Upgrade: websocket"
    ++ crlf
    ++ bytes "Connection: Upgrade"
    ++ crlf
    ++ bytes "Sec-WebSocket-Key: dGhlIHNhbXBsZQ=="
    ++ crlf
    ++ crlf

abbrev pub reading : List ℕ → ReadTurn
reading chunk = record { should_exit = false; readiness = ready; chunk = chunk }

abbrev pub at_once : WriteScript
at_once = record {
  start = 1000;
  turns = record { should_exit = false; now = 1001; readiness = ready; written = 1000 } ∷ [];
}

-- The request in two reads.
abbrev pub upgrading : HttpScript
upgrading = record {
  reads = reading first_half ∷ reading second_half ∷ [];
  head_write = at_once;
  body_write = at_once;
}

handle_http_lem_example :
    Refuses (new_connection 7 100) (handle_http guarded upgrading (new_connection 7 100))
    ⊎ AcceptsRead guarded upgrading
        (new_connection 7 100)
        (read_head [] upgrading.reads)
        (handle_http guarded upgrading (new_connection 7 100))
handle_http_lem_example = handle_http_lem guarded upgrading (new_connection 7 100)
