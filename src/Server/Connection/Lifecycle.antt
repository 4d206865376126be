-- ===== src/Server/Connection/Lifecycle.antt =====
-- `run`: a connection's thread from its start to its end, as its listener hears of it.
use phonepostmix.Base.{
  ℕ, ◌≡◌, ◌⊎◌, inl, inr, refl, sym, ap, ◌∙◌, subst, Bool, true, false, if◌then◌else◌, Option, none,
  some, List, [], ◌∷◌, ◌++◌, append-nil, append_assoc,
}
use phonepostmix.Server.Thread.{
  Owner, Connection, new_connection, Effect, connected, disconnected, closed, ◌>>=◌, ◌>>◌, notify,
  notes,
}
use phonepostmix.Server.Handshake.{HttpScript, read_head, handle_http}
use phonepostmix.Server.Handshake.Upgrade.{Refuses, AcceptsRead, handle_http_lem}
use phonepostmix.Server.Connection.{RoundTurn, rounds, finish, run}
use phonepostmix.Server.Connection.Hearing.{
  Result, heard, Hears, notes-append, notes-notify, rounds-Hears,
}
use phonepostmix.WebSocket.Parser.{IsValid, new_parser-IsValid}

-- The thread is at its end, with the socket closed as the last thing.
pub record Ended (r : Result (Unit {0})) : Type 0 where
  pub before : List Effect
  pub closes : r.0 ≡ before ++ closed ∷ []
  pub is_finished : r.1.finished ≡ true
  pub not_upgraded : r.1.upgraded ≡ false
  pub result : r.2 ≡ some tt

-- The thread runs, or an exception has ended it.
abbrev pub Unfinished : Result (Unit {0}) → Type 0
Unfinished r = (r.1.finished ≡ false) × (r.2 ≡ none)

abbrev pub goodbye : Owner → ℕ → Option (Unit {0}) → List Effect
goodbye o id none = []
goodbye o id (some x) = notify o (disconnected id)

-- The listener is told of the connection first, then of its messages, and at its end of the end.
abbrev pub HeardSession : Owner → ℕ → Result (Unit {0}) → Type 0
HeardSession o id r =
    (messages : List (List ℕ)) × (notes r.0
      ≡ notify o (connected id) ++ (heard o id messages ++ goodbye o id r.2))

module _ (o : Owner) where
  abbrev pub StreamEnds : ℕ → Result (Unit {0}) → Type 0
  StreamEnds id r =
      (Ended r ⊎ Unfinished r)
      × ((messages : List (List ℕ)) × (notes r.0 ≡ heard o id messages ++ goodbye o id r.2))

  notes-bye : (id : ℕ) → notes (notify o (disconnected id) ++ closed ∷ []) ≡ goodbye o id (some tt)
  unfolding notes
  notes-bye id =
      notes-append (notify o (disconnected id)) (closed ∷ [])
      ∙ append-nil (notes (notify o (disconnected id)))
      ∙ notes-notify o (disconnected id) refl

  -- The loop and `finish` of an upgraded connection, where the loop has given `r`.
  stream_lem :
      (d : Connection) (r : Result (Unit {0}))
      → d.upgraded ≡ true
      → d.finished ≡ false
      → Hears o d r
      → StreamEnds d.client_id (((λ (x : Connection). r) >>= λ _. finish o) d)
  unfolding finish
  stream_lem d (effects, e, none) up fresh h = (
    inr (ap (λ (x : Connection). x.finished) h.rest_kept ∙ fresh, refl),
    (h.messages, h.hears ∙ sym (append-nil (heard o d.client_id h.messages))),
  )
  stream_lem d (effects, e, some x) up fresh h =
      let same = ap (λ (y : Connection). y.client_id) h.rest_kept in
      let open_ = ap (λ (y : Connection). y.upgraded) h.rest_kept ∙ up in
      let note = notify o (disconnected e.client_id) in
      let said : (if e.upgraded then note else []) ≡ notify o (disconnected d.client_id) =
        ap (λ b. if b then note else []) open_ ∙ ap (λ i. notify o (disconnected i)) same in
      (
        inl (record {
          before = effects ++ (if e.upgraded then note else []);
          closes = sym (append_assoc effects (if e.upgraded then note else []) (closed ∷ []));
          is_finished = refl;
          not_upgraded = refl;
          result = refl;
        }),
        (
          h.messages,
          notes-append effects ((if e.upgraded then note else []) ++ closed ∷ [])
              ∙ ap (λ a. a ++ notes ((if e.upgraded then note else []) ++ closed ∷ [])) h.hears
              ∙ ap (λ a. heard o d.client_id h.messages ++ a)
                  (ap (λ a. notes (a ++ closed ∷ [])) said ∙ notes-bye d.client_id),
        ),
      )

module _ (o : Owner) (s : HttpScript) (turns : List RoundTurn) (id limit : ℕ) where
  abbrev pub start : Connection
  start = new_connection id limit

  abbrev pub Outcome : Result Bool → Result (Unit {0}) → Type 0
  Outcome h r =
      (Ended r ⊎ Unfinished r)
      × ((notes r.0 ≡ []) ⊎ (AcceptsRead o s start (read_head [] s.reads) h × HeardSession o id r))

  abbrev behind_http : Result Bool → Result (Unit {0})
  behind_http h =
      ((λ (c : Connection). h) >>= λ ok. if ok then (rounds o turns >> finish o) else finish o)
        start

  -- Without an upgrade.
  refused_lem :
      (e : List Effect) (d : Connection)
      → d ≡ start
      → notes e ≡ []
      → Outcome (e, d, some false) (behind_http (e, d, some false))
  unfolding finish notes
  refused_lem e d same silent =
      let note = notify o (disconnected d.client_id) in
      let not_open = ap (λ (x : Connection). x.upgraded) same in
      (
        inl (record {
          before = e ++ (if d.upgraded then note else []);
          closes = sym (append_assoc e (if d.upgraded then note else []) (closed ∷ []));
          is_finished = refl;
          not_upgraded = refl;
          result = refl;
        }),
        inl (
            notes-append e ((if d.upgraded then note else []) ++ closed ∷ [])
            ∙ ap (λ a. a ++ notes ((if d.upgraded then note else []) ++ closed ∷ [])) silent
            ∙ ap (λ b. notes ((if b then note else []) ++ closed ∷ [])) not_open),
      )

  -- With one: what comes behind it is `r`.
  later :
      (e : List Effect) (r : Result (Unit {0}))
      → Ended r ⊎ Unfinished r
      → Ended (e ++ r.0, r.1, r.2) ⊎ Unfinished (e ++ r.0, r.1, r.2)
  later e r (inr runs) = inr runs
  later e r (inl x) = inl (record {
    before = e ++ x.before;
    closes = ap (λ a. e ++ a) x.closes ∙ sym (append_assoc e x.before (closed ∷ []));
    is_finished = x.is_finished;
    not_upgraded = x.not_upgraded;
    result = x.result;
  })

  upgraded_lem :
      (e : List Effect) (d : Connection)
      → AcceptsRead o s start (read_head [] s.reads) (e, d, some true)
      → Outcome (e, d, some true) (behind_http (e, d, some true))
  unfolding AcceptsRead notes
  upgraded_lem e d (head, request, read, parsed, w) =
      let up = ap (λ (x : Connection). x.upgraded) w.opened_lem in
      let fresh = ap (λ (x : Connection). x.finished) w.opened_lem in
      let same = ap (λ (x : Connection). x.client_id) w.opened_lem in
      let v =
        subst IsValid (sym (ap (λ (x : Connection). x.parser) w.opened_lem))
          (new_parser-IsValid limit) in
      let (ending, (messages, said)) =
        stream_lem o d (rounds o turns d) up fresh (rounds-Hears o turns d (up, v)) in
      let r = (rounds o turns >> finish o) d in
      (
        later e r ending,
        inr (
          (head, request, read, parsed, w),
          (
            messages,
            notes-append e r.0
                ∙ ap (λ a. notes a ++ notes r.0) w.responded
                ∙ ap (λ a. a ++ notes r.0) (notes-notify o (connected id) refl)
                ∙ ap (λ a. notify o (connected id) ++ a)
                    (said ∙ ap (λ i. heard o i messages ++ goodbye o i r.2) same),
          ),
        ),
      )

  outcome_lem :
      (h : Result Bool)
      → Refuses start h ⊎ AcceptsRead o s start (read_head [] s.reads) h
      → Outcome h (behind_http h)
  unfolding AcceptsRead
  outcome_lem (e, d, none) (inl w) =
      (inr (ap (λ (x : Connection). x.finished) w.unchanged, refl), inl w.silent)
  outcome_lem (e, d, none) (inr (head, request, read, parsed, w)) = absurd (let h = w.success in cc)
  outcome_lem (e, d, some false) (inl w) = refused_lem e d w.unchanged w.silent
  outcome_lem (e, d, some false) (inr (head, request, read, parsed, w)) =
      absurd (let h = w.success in cc)
  outcome_lem (e, d, some true) (inl w) = absurd (w.no_success refl)
  outcome_lem (e, d, some true) (inr w) = upgraded_lem e d w

  -- A connection's thread ends with the socket closed and the connection finished and no longer
  -- upgraded, or it still runs or has ended by an exception. Its listener is never called unless the
  -- handshake has accepted an upgrade request; then it hears of the connection first, of its text
  -- messages next, and of its end once and last, when the thread has ended, and not before.
  pub run_lem : Outcome (handle_http o s start) (run o s turns start)
  unfolding run
  run_lem = outcome_lem (handle_http o s start) (handle_http_lem o s start)
