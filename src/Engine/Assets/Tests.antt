-- ===== src/Engine/Assets/Tests.antt =====
-- A request without a path.
use phonepostmix.Base.{◌≡◌, refl, none, some, [], ◌∷◌, ◌++◌, List, ℕ, true}
use phonepostmix.Engine.Assets.{Resources, resolve_asset}
use phonepostmix.Engine.Assets.Throwing.{throwing_request}
use phonepostmix.Http.{
  Request, bytes, crlf, head_of, items, words, parse_lines, parse_request, read_headers, path_of,
  split_at_first, is_web_socket_upgrade, header, find_header, contains_token,
}
use phonepostmix.Server.Connection.{run}
use phonepostmix.Server.Handshake.{HttpScript, read_head}
use phonepostmix.Server.Handshake.Tests.{at_once, reading}
use phonepostmix.Server.Stream.{reap}
use phonepostmix.Server.Thread.{Owner, new_connection, threw}

abbrev pub resources : Resources
resources = (bytes "index.html", some (1 ∷ 2 ∷ [])) ∷ []

abbrev serving : Owner
serving = record {
  asset_provider = some (resolve_asset resources);
  upgrade_authorizer = none;
  has_listener = true;
  queue_limit_bytes = 100;
  to_base64 = λ data_bytes. [];
}

abbrev asking : List ℕ
asking = bytes "GET ?x HTTP/1.1" ++ crlf ++ crlf

abbrev script : HttpScript
script = record { reads = reading asking ∷ []; head_write = at_once; body_write = at_once }

abbrev request : Request
request = record {
  method = bytes "GET";
  target = bytes "?x";
  path = [];
  version = bytes "HTTP/1.1";
  headers = [];
}

throwing_request_example :
    (run serving script [] (new_connection 7 100) ≡ (threw ∷ [], new_connection 7 100, none))
    × (reap ((run serving script [] (new_connection 7 100)).1 ∷ [])
        ≡ new_connection 7 100 ∷ reap [])
unfolding read_head head_of items words parse_lines parse_request read_headers path_of
    split_at_first is_web_socket_upgrade header find_header contains_token
throwing_request_example =
    throwing_request resources serving script [] 7 100 asking request (bytes "x") [] refl refl refl
      refl refl
