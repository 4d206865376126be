-- ===== src/Server/Handshake.antt =====
-- `handleHttp`, `performUpgrade` and `serveAsset` of `StreamServer::Connection`.
pub mod Upgrade
pub mod Tests
use phonepostmix.Base.{
  ℕ, Bool, true, false, not, ltb, bytes_eq, if◌then◌else◌, Option, none, some, List, [], ◌∷◌, ◌++◌,
  length,
}
use phonepostmix.Base.Int.{pos, negsuc}
use phonepostmix.Http.{
  bytes, Request, header, head_of, is_web_socket_upgrade, parse_request, make_response_head,
}
use phonepostmix.Server.Socket.{Ready, failed, not_yet, ready}
use phonepostmix.Server.Thread.{
  Asset, Owner, Connection, Effect, sent, connected, disconnected, received, closed, Thread, ◌>>=◌,
  ◌>>◌, return, running, throws, notify, WriteScript, send,
}
use phonepostmix.WebSocket.Accept.{make_accept_key}

-- `chunk` is what `read` gives, empty where it returns 0 or less.
pub record ReadTurn : Type 0 where
  pub should_exit : Bool
  pub readiness : Ready
  pub chunk : List ℕ

abbrev pub max_request_head_bytes : ℕ
max_request_head_bytes = 16384

abbrev pub has_blank_line : List ℕ → Bool
has_blank_line head = elim (head_of head) [ none ↦ false | some h ↦ true ]

-- The loop of `handleHttp`: the head, or `none` where it returns false.
unfoldable pub read_head : List ℕ → List ReadTurn → Option (Option (List ℕ))
read_head head [] = none
read_head head (t ∷ turns) =
    let grown = head ++ t.chunk in
    let waits = read_head head turns in
    let goes_on = read_head grown turns in
    let got : Option (Option (List ℕ)) =
      if bytes_eq t.chunk []
      then some none
      else if has_blank_line grown
      then some (some grown)
      else if ltb max_request_head_bytes (length grown)
      then some none
      else goes_on in
    if t.should_exit
    then some (some head)
    else elim t.readiness [ failed ↦ some none | not_yet ↦ waits | ready ↦ got ]

pub record HttpScript : Type 0 where
  pub reads : List ReadTurn
  pub head_write : WriteScript
  pub body_write : WriteScript

abbrev pub connection_close : List ℕ
connection_close = bytes "Connection: close"

abbrev pub plain_text : List ℕ
plain_text = bytes "text/plain; charset=utf-8"

-- A head and a body that close the connection.
unfoldable pub deny : HttpScript → ℕ → List ℕ → List ℕ → Thread Bool
unfolding send
deny s status reason body = do
  send (make_response_head status reason plain_text (pos (length body)) (connection_close ∷ []))
      s.head_write
  send body s.body_write
  return false

abbrev pub upgrade_response : Owner → Request → List ℕ
upgrade_response o request =
    let accept = make_accept_key o.to_base64 (header request (bytes "sec-websocket-key")) in
    make_response_head 101 (bytes "Switching Protocols") [] (negsuc 0) (
      bytes "Upgrade: websocket"
      ∷ bytes "Connection: Upgrade"
      ∷ (bytes "Sec-WebSocket-Accept: " ++ accept)
      ∷ [])

-- upgraded.store (true), and the listener's call.
abbrev pub opened : Owner → Thread Bool
opened o c = (notify o (connected c.client_id), record c { upgraded = true }, some true)

unfoldable pub perform_upgrade : Owner → HttpScript → Request → Thread Bool
unfolding send
perform_upgrade o s request = do
  ok ← send (upgrade_response o request) s.head_write
  if ok then opened o else return false

abbrev pub asset_response : Asset → List ℕ
asset_response a =
    make_response_head 200 (bytes "OK") a.mime_type (pos (length a.content))
      (connection_close ∷ bytes "Cache-Control: no-store" ∷ [])

unfoldable pub serve_found : HttpScript → Option Asset → Thread Bool
unfolding deny send
serve_found s none = deny s 404 (bytes "Not Found") (bytes "Not found")
serve_found s (some a) = do
  ok ← send (asset_response a) s.head_write
  if ok then (send a.content s.body_write >> return false) else return false

-- `none` where the provider throws.
abbrev pub find_asset : Owner → List ℕ → Option (Option Asset)
find_asset o path = elim o.asset_provider [ none ↦ some none | some provider ↦ provider path ]

-- `serveAsset`, with the result of `handleHttp` behind it.
abbrev pub serve_result : HttpScript → Option (Option Asset) → Thread Bool
serve_result s none = throws
serve_result s (some asset) = serve_found s asset

unfoldable pub serve_asset : Owner → HttpScript → Request → Thread Bool
unfolding serve_found
serve_asset o s request = serve_result s (find_asset o request.path)

abbrev pub is_authorized : Owner → List ℕ → Bool
is_authorized o target = elim o.upgrade_authorizer [ none ↦ true | some check ↦ check target ]

unfoldable pub answer : Owner → HttpScript → Option Request → Thread Bool
unfolding deny perform_upgrade serve_asset
answer o s none = return false
answer o s (some request) =
    if is_web_socket_upgrade request
    then (if not (is_authorized o request.target)
        then deny s 403 (bytes "Forbidden") (bytes "Forbidden")
        else perform_upgrade o s request)
    else serve_asset o s request

abbrev pub answer_head : Owner → HttpScript → Option (List ℕ) → Thread Bool
answer_head o s none = return false
answer_head o s (some head) = answer o s (parse_request head)

abbrev pub after_read : Owner → HttpScript → Option (Option (List ℕ)) → Thread Bool
after_read o s none = running
after_read o s (some result) = answer_head o s result

unfoldable pub handle_http : Owner → HttpScript → Thread Bool
unfolding read_head answer
handle_http o s = after_read o s (read_head [] s.reads)
