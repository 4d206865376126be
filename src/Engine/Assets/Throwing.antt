-- ===== src/Engine/Assets/Throwing.antt =====
-- What a connection's thread does where `resolveAsset` throws.
use phonepostmix.Base.{
  ℕ, ◌≡◌, refl, ap, ◌∙◌, subst, Bool, false, not, if◌then◌else◌, Option, none, some, List, [], ◌∷◌,
}
use phonepostmix.Engine.Assets.{Resources, resolve_asset, resolve_asset_throws}
use phonepostmix.Http.{
  Request, is_web_socket_upgrade, words, head_of, items, path_of, read_headers, bytes, parse_lines,
  parse_request,
}
use phonepostmix.Server.Thread.{
  Owner, Connection, new_connection, threw, throws, Thread, ◌>>=◌, ◌>>◌,
}
use phonepostmix.Server.Handshake.{
  HttpScript, read_head, find_asset, serve_result, serve_asset, answer, after_read, handle_http,
  is_authorized, deny, perform_upgrade,
}
use phonepostmix.Server.Connection.{RoundTurn, rounds, finish, run}
use phonepostmix.Server.Stream.{reap}

abbrev HasPath : Option Request → Type 0
HasPath none = Unit {0}
HasPath (some r) = r.path ≡ path_of r.target

parse_lines-HasPath : (lines : List (List ℕ)) → HasPath (parse_lines lines)
unfolding parse_lines
parse_lines-HasPath [] = tt
parse_lines-HasPath (line ∷ lines) = by_words (words [] line)
  where
    by_words :
        (ws : List (List ℕ))
        → HasPath (elim ws [
          | [] ↦ none
          | method ∷ [] ↦ none
          | method ∷ target ∷ [] ↦ none
          | method ∷ target ∷ version ∷ more ↦ some (record {
            method = method;
            target = target;
            path = path_of target;
            version = version;
            headers = read_headers lines [];
          })
        ])
    by_words [] = tt
    by_words (method ∷ []) = tt
    by_words (method ∷ target ∷ []) = tt
    by_words (method ∷ target ∷ version ∷ more) = refl

parse_request-HasPath : (text : List ℕ) → HasPath (parse_request text)
unfolding parse_request
parse_request-HasPath text = by_head (head_of text)
  where
    by_head :
        (h : Option (List ℕ))
        → HasPath (elim h [ none ↦ none | some head ↦ parse_lines (items 10 [] head) ])
    by_head none = tt
    by_head (some head) = parse_lines-HasPath (items 10 [] head)

module _ (resources : Resources) (o : Owner) (s : HttpScript) (turns : List RoundTurn)
    (id limit : ℕ) where
  abbrev start : Connection
  start = new_connection id limit

  no_asset :
      (request : Request) (target : List ℕ)
      → o.asset_provider ≡ some (resolve_asset resources)
      → request.path ≡ path_of request.target
      → request.target ≡ 63 ∷ target
      → find_asset o request.path ≡ none
  no_asset request target provider path asks =
      ap (λ p. elim p [ none ↦ some none | some provide ↦ provide request.path ]) provider
      ∙ ap (resolve_asset resources) (path ∙ ap path_of asks)
      ∙ (resolve_asset_throws resources 63 target).0 refl

  handle_http-throws :
      (head : List ℕ) (request : Request)
      → read_head [] s.reads ≡ some (some head)
      → parse_request head ≡ some request
      → find_asset o request.path ≡ none
      → is_web_socket_upgrade request ≡ false
      → handle_http o s ≡ throws
  unfolding handle_http answer serve_asset
  handle_http-throws head request read parsed missing plain =
      let upgrades : Thread Bool =
        if not (is_authorized o request.target)
        then deny s 403 (bytes "Forbidden") (bytes "Forbidden")
        else perform_upgrade o s request in
      ap (after_read o s) read
      ∙ ap (answer o s) parsed
      ∙ ap (λ b. if b then upgrades else serve_asset o s request) plain
      ∙ ap (serve_result s) missing

  -- With the engine's assets, a request that is no upgrade and whose target begins with a question mark
  -- ends the connection's thread by an exception: nothing is answered, the socket is not closed, and the
  -- connection is never marked as finished, so that the acceptor does not take it out of its list.
  pub throwing_request :
      (head : List ℕ) (request : Request) (target : List ℕ) (connections : List Connection)
      → o.asset_provider ≡ some (resolve_asset resources)
      → read_head [] s.reads ≡ some (some head)
      → parse_request head ≡ some request
      → request.target ≡ 63 ∷ target
      → is_web_socket_upgrade request ≡ false
      → (run o s turns start ≡ (threw ∷ [], start, none))
        × (reap ((run o s turns start).1 ∷ connections) ≡ start ∷ reap connections)
  unfolding run reap
  throwing_request head request target connections provider read parsed asks plain =
      let path = subst HasPath parsed (parse_request-HasPath head) in
      let missing = no_asset request target provider path asks in
      let thrown = handle_http-throws head request read parsed missing plain in
      let ends =
        ap
          (λ (m : Thread Bool).
            (m >>= λ ok. if ok then (rounds o turns >> finish o) else finish o) start)
          thrown in
      (ends, ap (λ r. reap (r.1 ∷ connections)) ends)
