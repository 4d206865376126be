-- ===== src/Engine/Clients/Tests.antt =====
-- The client list at concrete messages, with texts for JSON values.
use phonepostmix.Base.{ℕ, ◌≡◌, refl, arith, true, not, bytes_eq, List, [], ◌∷◌, length}
use phonepostmix.Base.Int.{pos}
use phonepostmix.Http.{bytes}
use phonepostmix.Server.Thread.{new_connection, notes}
use phonepostmix.Server.Handshake.Tests.{guarded, upgrading}
use phonepostmix.Server.Connection.{run}
use phonepostmix.Server.Connection.Tests.{round_turns}
use phonepostmix.Engine.Clients.{
  JsonOps, ClientInfo, new_client, take_message, change_entry, stream_text_message_received, listen,
}
use phonepostmix.Engine.Clients.Messages.{client_ids}
use phonepostmix.Engine.Clients.Sessions.{Listed, run-Listed}

-- A value is a text, its own property of every name, and an object unless it is empty.
abbrev pub plain_json : JsonOps
plain_json = record {
  Var = List ℕ;
  Double = ℕ;
  zero_double = 0;
  parse = λ message. message;
  is_object = λ v. not (bytes_eq v []);
  property = λ v name default. v;
  void = [];
  of_int = λ n. [];
  of_double = λ x. [];
  of_bool = λ b. [];
  to_string = λ v. v;
  to_int = λ v. pos (length v);
  to_double = λ v. length v;
  to_bool = λ v. true;
}

abbrev two_clients : List (ClientInfo plain_json)
two_clients = new_client plain_json 3 ∷ new_client plain_json 5 ∷ []

stat-second :
    stream_text_message_received plain_json 5 (bytes "stat") two_clients
    ≡ new_client plain_json 3
      ∷ record (new_client plain_json 5) {
        buffer_ms = pos 4;
        target_ms = pos 4;
        underruns = pos 4;
        drift_ppm = 4;
        playing = true;
      }
      ∷ []
unfolding stream_text_message_received take_message change_entry
stat-second = refl

run-Listed_example :
    Listed plain_json 7 two_clients
      (listen plain_json
        (notes (run guarded upgrading round_turns (new_connection 7 100)).0)
        two_clients)
      (run guarded upgrading round_turns (new_connection 7 100)).2
unfolding client_ids
run-Listed_example =
    run-Listed plain_json guarded upgrading round_turns 7 100 two_clients refl (ground arith)
