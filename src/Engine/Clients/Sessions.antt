-- ===== src/Engine/Clients/Sessions.antt =====
-- The client list over the life of a connection: the server's thread and the engine together.
use phonepostmix.Base.{
  ℕ, ◌≡◌, ◌≢◌, ◌⊎◌, inl, inr, refl, sym, ap, ◌∙◌, subst, arith, true, not, All, if◌then◌else◌,
  if_intro, Option, none, some, List, [], ◌∷◌, ◌++◌,
}
use phonepostmix.Server.Thread.{
  Owner, new_connection, Effect, sent, connected, disconnected, received, closed, threw, notify,
  notes,
}
use phonepostmix.Server.Handshake.{HttpScript}
use phonepostmix.Server.Connection.{RoundTurn, run}
use phonepostmix.Server.Connection.Hearing.{heard}
use phonepostmix.Server.Connection.Lifecycle.{goodbye, run_lem}
use phonepostmix.Engine.Clients.{
  JsonOps, ClientInfo, new_client, take_message, change_entry, stream_text_message_received,
  append_client, stream_client_disconnected, listen,
}
use phonepostmix.Engine.Clients.Messages.{client_ids, take_message-KeepsId}

module _ (S : JsonOps) where
  abbrev pub IsFresh : ℕ → List (ClientInfo S) → Type 0
  IsFresh id clients = All (λ i. i ≢ id) (client_ids S clients)

  listen-append :
      (xs ys : List Effect) (clients : List (ClientInfo S))
      → listen S (xs ++ ys) clients ≡ listen S ys (listen S xs clients)
  unfolding listen
  listen-append [] ys clients = refl
  listen-append (sent out ∷ xs) ys clients = listen-append xs ys clients
  listen-append (closed ∷ xs) ys clients = listen-append xs ys clients
  listen-append (threw ∷ xs) ys clients = listen-append xs ys clients
  listen-append (connected id ∷ xs) ys clients = listen-append xs ys (append_client S id clients)
  listen-append (disconnected id ∷ xs) ys clients =
      listen-append xs ys (stream_client_disconnected S id clients)
  listen-append (received id message ∷ xs) ys clients =
      listen-append xs ys (stream_text_message_received S id message clients)

  -- The connection's own entry, last in the list.
  abbrev pub Ends : ℕ → List (ClientInfo S) → List (ClientInfo S) → Type 0
  Ends id before after = (c : ClientInfo S) × (c.id ≡ id) × (after ≡ before ++ c ∷ [])

  change_entry-last :
      (id : ℕ) (f : ClientInfo S → ClientInfo S) (before : List (ClientInfo S)) (c : ClientInfo S)
      → IsFresh id before
      → c.id ≡ id
      → change_entry S id f (before ++ c ∷ []) ≡ before ++ f c ∷ []
  unfolding change_entry client_ids
  change_entry-last id f [] c fresh own = ground arith
  change_entry-last id f (d ∷ before) c fresh own =
      ground (arith, fresh.0, change_entry-last id f before c fresh.1 own)

  received-Ends :
      (id : ℕ) (message : List ℕ) (before clients : List (ClientInfo S))
      → IsFresh id before
      → Ends id before clients
      → Ends id before (stream_text_message_received S id message clients)
  unfolding stream_text_message_received
  received-Ends id message before clients fresh (c, own, e) =
      let parsed = S.parse message in
      if_intro (Ends id before) (not (S.is_object parsed)) (λ _. (c, own, e))
        (λ _. (
          take_message S parsed c,
          take_message-KeepsId S parsed c ∙ own,
          ap (change_entry S id (take_message S parsed)) e
              ∙ change_entry-last id (take_message S parsed) before c fresh own,
        ))

  listen-heard :
      (o : Owner) (id : ℕ) (messages : List (List ℕ)) (before clients : List (ClientInfo S))
      → IsFresh id before
      → Ends id before clients
      → Ends id before (listen S (heard o id messages) clients)
  unfolding listen heard
  listen-heard o id [] before clients fresh ends = ends
  listen-heard o id (m ∷ messages) before clients fresh ends =
      if_intro (λ first. Ends id before (listen S (first ++ heard o id messages) clients))
        o.has_listener
        (λ _.
          listen-heard o id messages before (stream_text_message_received S id m clients) fresh
            (received-Ends id m before clients fresh ends))
        (λ _. listen-heard o id messages before clients fresh ends)

  disconnected-last :
      (id : ℕ) (before : List (ClientInfo S)) (c : ClientInfo S)
      → IsFresh id before
      → c.id ≡ id
      → stream_client_disconnected S id (before ++ c ∷ []) ≡ before
  unfolding client_ids stream_client_disconnected
  disconnected-last id [] c fresh own = ground arith
  disconnected-last id (d ∷ before) c fresh own =
      ground (arith, fresh.0, disconnected-last id before c fresh.1 own)

  notify-on : (o : Owner) (e : Effect) → o.has_listener ≡ true → notify o e ≡ e ∷ []
  notify-on o e on = ap (λ b. if b then e ∷ [] else []) on

  -- The clients of the engine before and after what a connection's thread has done so far: every
  -- entry that was there stays as it was.
  abbrev pub Listed : ℕ → List (ClientInfo S) → List (ClientInfo S) → Option (Unit {0}) → Type 0
  Listed id before after none = (after ≡ before) ⊎ Ends id before after
  Listed id before after (some x) = after ≡ before

  same-Listed :
      (id : ℕ) (before after : List (ClientInfo S)) (r : Option (Unit {0}))
      → after ≡ before
      → Listed id before after r
  same-Listed id before after none e = inl e
  same-Listed id before after (some x) e = e

  module _ (o : Owner) (id : ℕ) (clients : List (ClientInfo S)) (on : o.has_listener ≡ true) where
    abbrev told : List (List ℕ) → List (ClientInfo S)
    told messages = listen S (heard o id messages) (append_client S id clients)

    told-Ends : (messages : List (List ℕ)) → IsFresh id clients → Ends id clients (told messages)
    told-Ends messages fresh =
        listen-heard o id messages clients (append_client S id clients) fresh
          (new_client S id, refl, refl)

    listen-session :
        (messages : List (List ℕ)) (bye : List Effect)
        → listen S (notify o (connected id) ++ (heard o id messages ++ bye)) clients
          ≡ listen S bye (told messages)
    unfolding listen
    listen-session messages bye =
        listen-append (notify o (connected id)) (heard o id messages ++ bye) clients
        ∙ ap (λ n. listen S (heard o id messages ++ bye) (listen S n clients))
            (notify-on o (connected id) on)
        ∙ listen-append (heard o id messages) bye (append_client S id clients)

    session-Listed :
        (messages : List (List ℕ)) (r : Option (Unit {0}))
        → IsFresh id clients
        → Listed id clients
            (listen S (notify o (connected id) ++ (heard o id messages ++ goodbye o id r)) clients)
            r
    unfolding listen
    session-Listed messages none fresh =
        let (c, own, e) = told-Ends messages fresh in inr (c, own, listen-session messages [] ∙ e)
    session-Listed messages (some x) fresh =
        let (c, own, e) = told-Ends messages fresh in
        listen-session messages (notify o (disconnected id))
        ∙ ap (λ n. listen S n (told messages)) (notify-on o (disconnected id) on)
        ∙ ap (stream_client_disconnected S id) e
        ∙ disconnected-last id clients c fresh own

  module _ (o : Owner) (s : HttpScript) (turns : List RoundTurn) (id limit : ℕ) where
    -- With the engine as the server's listener, a connection whose id is not listed leaves the list of
    -- clients as it found it, every entry included, when its thread has ended; while it runs, it has
    -- at most added one entry, its own, at the end of that list. Its messages change no other entry.
    pub run-Listed :
        (clients : List (ClientInfo S))
        → o.has_listener ≡ true
        → IsFresh id clients
        → let r = run o s turns (new_connection id limit) in
          Listed id clients (listen S (notes r.0) clients) r.2
    unfolding listen
    run-Listed clients on fresh =
        let r = run o s turns (new_connection id limit) in
        elim (run_lem o s turns id limit).1 [
          | inl silent ↦
              same-Listed id clients (listen S (notes r.0) clients) r.2
                (ap (λ n. listen S n clients) silent)
          | inr (_, (messages, said)) ↦
              subst (λ n. Listed id clients (listen S n clients) r.2) (sym said)
                (session-Listed o id clients on messages r.2 fresh)
        ]
