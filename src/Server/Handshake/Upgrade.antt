-- ===== src/Server/Handshake/Upgrade.antt =====
-- Which requests are upgraded, and what the others leave behind.
use phonepostmix.Base.{
  ℕ, ◌≡◌, ◌≢◌, ◌⊎◌, inl, inr, refl, ap, arith, Bool, true, false, not, if◌then◌else◌, if_intro,
  Option, none, some, List, [], ◌∷◌,
}
use phonepostmix.Http.{bytes, Request, is_web_socket_upgrade, parse_request}
use phonepostmix.Server.Socket.{Written, write_all}
use phonepostmix.Server.Socket.Writing.{Sends, write_all_lem}
use phonepostmix.Server.Thread.{
  Asset, Owner, Connection, Effect, sent, connected, Thread, ◌>>=◌, return, notify, send, notes,
}
use phonepostmix.Server.Handshake.{
  HttpScript, read_head, deny, upgrade_response, opened, perform_upgrade, serve_found, serve_result,
  serve_asset, find_asset, is_authorized, answer, after_read, handle_http,
}

abbrev pub After : Type 0
After = List Effect × Connection × Option Bool

-- The connection is as before, and the listener has not been called.
pub record Refuses (c : Connection) (r : After) : Type 0 where
  pub unchanged : r.1 ≡ c
  pub silent : notes r.0 ≡ []
  pub no_success : r.2 ≢ some true

-- The whole response to the request has gone out, and then the listener has been told.
pub record Accepts (o : Owner) (request : Request) (c : Connection) (r : After) : Type 0 where
  pub is_upgrade : is_web_socket_upgrade request ≡ true
  pub authorized : is_authorized o request.target ≡ true
  pub success : r.2 ≡ some true
  pub responded : r.0 ≡ sent (upgrade_response o request) ∷ notify o (connected c.client_id)
  pub opened_lem : r.1 ≡ record c { upgraded = true }

deny-Refuses :
    (s : HttpScript) (status : ℕ) (reason body : List ℕ) (c : Connection)
    → Refuses c (deny s status reason body c)
unfolding deny send notes
deny-Refuses s status reason body c = ground arith

serve_found-Refuses :
    (s : HttpScript) (a : Option Asset) (c : Connection) → Refuses c (serve_found s a c)
unfolding serve_found send notes
serve_found-Refuses s none c = deny-Refuses s 404 (bytes "Not Found") (bytes "Not found") c
serve_found-Refuses s (some a) c = ground arith

serve_result-Refuses :
    (s : HttpScript) (a : Option (Option Asset)) (c : Connection) → Refuses c (serve_result s a c)
unfolding notes
serve_result-Refuses s none c = record { unchanged = refl; silent = refl; no_success = λ e. cc }
serve_result-Refuses s (some a) c = serve_found-Refuses s a c

abbrev Outcome : Owner → Request → Connection → After → Type 0
Outcome o request c r = Refuses c r ⊎ Accepts o request c r

-- What `performUpgrade` does behind its write.
abbrev after_write : Owner → Connection → Written → After
after_write o c w =
    ((λ (d : Connection). (sent w.0 ∷ [], d, w.1)) >>= λ ok. if ok then opened o else return false)
      c

after_write_cases :
    (o : Owner) (request : Request) (c : Connection) (w : Written)
    → is_web_socket_upgrade request ≡ true
    → is_authorized o request.target ≡ true
    → Sends (upgrade_response o request) w
    → Outcome o request c (after_write o c w)
after_write_cases o request c (out, none) is_upgrade authorized v =
    inl (record { unchanged = refl; silent = unfold notes in refl; no_success = λ e. cc })
after_write_cases o request c (out, some false) is_upgrade authorized v =
    inl (record { unchanged = refl; silent = unfold notes in refl; no_success = λ e. cc })
after_write_cases o request c (out, some true) is_upgrade authorized v = inr (record {
  is_upgrade = is_upgrade;
  authorized = authorized;
  success = refl;
  responded = ap (λ x. sent x ∷ notify o (connected c.client_id)) (v.whole refl);
  opened_lem = refl;
})

perform_upgrade_cases :
    (o : Owner) (s : HttpScript) (request : Request) (c : Connection)
    → is_web_socket_upgrade request ≡ true
    → is_authorized o request.target ≡ true
    → Outcome o request c (perform_upgrade o s request c)
unfolding perform_upgrade send
perform_upgrade_cases o s request c is_upgrade authorized =
    let response = upgrade_response o request in
    let w = write_all response s.head_write.start s.head_write.turns in
    after_write_cases o request c w is_upgrade authorized
      (write_all_lem response s.head_write.start s.head_write.turns)

answer_cases :
    (o : Owner) (s : HttpScript) (request : Request) (c : Connection)
    → Outcome o request c (answer o s (some request) c)
unfolding answer serve_asset
answer_cases o s request c =
    let P : Thread Bool → Type 0 = λ m. Outcome o request c (m c) in
    if_intro P (is_web_socket_upgrade request)
      (λ is_upgrade.
        if_intro P (not (is_authorized o request.target))
          (λ _. inl (deny-Refuses s 403 (bytes "Forbidden") (bytes "Forbidden") c))
          (λ allowed. perform_upgrade_cases o s request c is_upgrade (ground arith)))
      (λ _. inl (serve_result-Refuses s (find_asset o request.path) c))

module _ (o : Owner) (s : HttpScript) (c : Connection) where
  -- A request that was read and parsed is accepted, with what is left of the thread's part `r`.
  unfoldable pub AcceptsRead : Option (Option (List ℕ)) → After → Type 0
  AcceptsRead h r =
      (head : List ℕ) × (request : Request) × (h ≡ some (some head))
      × (parse_request head ≡ some request)
      × Accepts o request c r

  stays : {r : Option Bool} → r ≢ some true → Refuses c ([], c, r)
  unfolding notes
  stays fails = record { unchanged = refl; silent = refl; no_success = fails }

  parsed_cases :
      (head : List ℕ) (p : Option Request)
      → parse_request head ≡ p
      → Refuses c (answer o s p c) ⊎ AcceptsRead (some (some head)) (answer o s p c)
  unfolding answer AcceptsRead
  parsed_cases head none e = inl (stays (λ x. cc))
  parsed_cases head (some request) e = elim (answer_cases o s request c) [
    | inl refuses ↦ inl refuses
    | inr accepts ↦ inr (head, request, refl, e, accepts)
  ]

  read_cases :
      (h : Option (Option (List ℕ)))
      → Refuses c (after_read o s h c) ⊎ AcceptsRead h (after_read o s h c)
  read_cases none = inl (stays (λ x. cc))
  read_cases (some none) = inl (stays (λ x. cc))
  read_cases (some (some head)) = parsed_cases head (parse_request head) refl

  -- A connection becomes a stream only by a WebSocket upgrade request that the server's check lets
  -- through, read whole from the socket, and the full response with its accept key has gone out before
  -- the listener is told. Every other way through `handleHttp`, errors and unfinished ones included,
  -- leaves the connection as it was and calls no listener.
  pub handle_http_lem :
      Refuses c (handle_http o s c) ⊎ AcceptsRead (read_head [] s.reads) (handle_http o s c)
  unfolding handle_http
  handle_http_lem = read_cases (read_head [] s.reads)
