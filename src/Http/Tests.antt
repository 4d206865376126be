-- ===== src/Http/Tests.antt =====
-- HTTP heads at concrete texts.
use phonepostmix.Base.{if◌then◌else◌, ℕ, ◌≡◌, refl, true, some, List, [], ◌∷◌, ◌++◌}
use phonepostmix.Base.Int.{pos}
use phonepostmix.Http.{
  bytes, crlf, Request, header, to_lower, parse_request, is_web_socket_upgrade, mime_type_for_path,
  make_response_head, path_of, trim, trim_front, trim_back,
}
use phonepostmix.Http.Lines.{solid}
use phonepostmix.Http.Printed.{
  AllFields, last_of, is_named, entries, print_request, parse_request-print_request,
}

abbrev upgrade_text : List ℕ
upgrade_text =
    bytes "GET /ws?k=1 HTTP/1.1"
    ++ crlf
    ++ bytes "UPGRADE: WebSocket"
    ++ crlf
    ++ bytes "Connection: keep-alive, Upgrade"
    ++ crlf
    ++ bytes "Sec-WebSocket-Key:  abc "
    ++ crlf
    ++ crlf

abbrev upgrade_request : Request
upgrade_request = record {
  method = bytes "GET";
  target = bytes "/ws?k=1";
  path = bytes "/ws";
  version = bytes "HTTP/1.1";
  headers =
      (bytes "upgrade", bytes "WebSocket")
      ∷ (bytes "connection", bytes "keep-alive, Upgrade")
      ∷ (bytes "sec-websocket-key", bytes "abc")
      ∷ [];
}

parse_upgrade : parse_request upgrade_text ≡ some upgrade_request
unfolding parse_request
parse_upgrade = refl

upgrade_accepted : is_web_socket_upgrade upgrade_request ≡ true
unfolding is_web_socket_upgrade
upgrade_accepted = refl

script_type : mime_type_for_path (bytes "/a.b/app.JS") ≡ bytes "text/javascript; charset=utf-8"
unfolding mime_type_for_path
script_type = refl

not_found_head :
    make_response_head 404 (bytes "Not Found") [] (pos 120) (bytes "Connection: close" ∷ [])
    ≡ bytes "HTTP/1.1 404 Not Found"
      ++ crlf
      ++ bytes "Content-Length: 120"
      ++ crlf
      ++ bytes "Connection: close"
      ++ crlf
      ++ crlf
unfolding make_response_head
not_found_head = refl

-- A target with a query, and a field that comes twice.
abbrev twice : List (List ℕ × List ℕ)
twice = (bytes "Host", bytes "10.0.0.4:80") ∷ (bytes "HOST", bytes "b") ∷ []

parse_request-print_request_example :
    (r : Request) × (parse_request
        (print_request (bytes "GET") (bytes "/a?t=1") (bytes "HTTP/1.1") twice)
      ≡ some r)
    × (r.method ≡ bytes "GET")
    × (r.target ≡ bytes "/a?t=1")
    × (r.path ≡ bytes "/a")
    × (r.version ≡ bytes "HTTP/1.1")
    × ((name : List ℕ) → header r name ≡ last_of (to_lower name) twice [])
    × ((key : List ℕ) → entries key r.headers ≡ (if is_named key twice then 1 else 0))
unfolding path_of trim solid AllFields trim_front trim_back
parse_request-print_request_example =
    parse_request-print_request (bytes "GET") (bytes "/a?t=1") (bytes "HTTP/1.1") twice
      (λ e. cc, refl) (λ e. cc, refl) (λ e. cc, refl)
      (refl, (refl, refl), refl, refl, (refl, (refl, refl), refl, refl, tt))

last_host : last_of (bytes "host") twice [] ≡ bytes "b"
unfolding last_of trim
last_host = refl
