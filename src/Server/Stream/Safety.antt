-- ===== src/Server/Stream/Safety.antt =====
-- The server in any order of its steps.
use phonepostmix.Base.{
  ℕ, suc, ◌+◌, ◌^◌, ◌≤◌, ◌<◌, ◌≡◌, refl, sym, ap, ◌∙◌, subst, arith, Bool, true, false, ◌==◌,
  Option, List, [], ◌∷◌, ◌++◌, map, if_intro,
}
use phonepostmix.Server.Thread.{Asset, Connection}
use phonepostmix.Server.Stream.{
  StreamServer, set_upgrade_authorizer, set_per_client_queue_limit, stop, search_port,
  port_search_range, start, accept, enqueue_on, broadcast_binary, broadcast_text,
}
use phonepostmix.Server.Stream.Steps.{
  Step, authorizes, limits, starts, stops, accepts, moves, sends_binary, sends_text, Reachable,
  initially, after, ids, AscendsIn, IsConsistent,
}
use phonepostmix.WebSocket.{binary, write_frame, write_text_frame}
use phonepostmix.Server.Stream.Invariant.{
  Part-client_id, kept, stop-IsStopped, IsStopped-IsConsistent, start-IsConsistent, append_cons-nil,
  accept-IsConsistent, ids-broadcast, WithNext,
}

ids-moves :
    (xs ys : List Connection) (c d : Connection)
    → d.client_id ≡ c.client_id
    → ids (xs ++ d ∷ ys) ≡ ids (xs ++ c ∷ ys)
unfolding ids
ids-moves [] ys c d e = ap (λ i. i ∷ ids ys) e
ids-moves (x ∷ xs) ys c d e = ap (◌∷◌ x.client_id) (ids-moves xs ys c d e)

moves-IsConsistent :
    (s : StreamServer) (xs ys : List Connection) (c d : Connection)
    → s.connections ≡ xs ++ c ∷ ys
    → d.client_id ≡ c.client_id
    → IsConsistent s
    → IsConsistent (record s { connections = xs ++ d ∷ ys })
moves-IsConsistent s xs ys c d split same v =
    kept s (record s { connections = xs ++ d ∷ ys }) v refl refl refl refl refl
      (λ empty. append_cons-nil xs ys c (sym split ∙ empty))
      (ids-moves xs ys c d same ∙ ap ids (sym split))

broadcast-IsConsistent :
    (s : StreamServer) (frame : List ℕ) (droppable : Bool)
    → IsConsistent s
    → IsConsistent
        (record s { connections = map (enqueue_on s.owner frame droppable) s.connections })
broadcast-IsConsistent s frame droppable v =
    kept s (record s { connections = map (enqueue_on s.owner frame droppable) s.connections }) v
      refl refl refl refl refl (λ empty. ap (map (enqueue_on s.owner frame droppable)) empty)
      (ids-broadcast s.owner frame droppable s.connections)

start-next :
    (s : StreamServer)
    → IsConsistent s
    → (binds : ℕ → Bool) (port : ℕ) (provider : List ℕ → Option (Option Asset))
      (has_listener : Bool)
    → (start binds port provider has_listener s).0.next_client_id ≡ s.next_client_id
unfolding start
start-next s v binds port provider has_listener =
    if_intro (λ (x : StreamServer × Bool). x.0.next_client_id ≡ s.next_client_id)
      (search_port binds (stop s).bound_port port port_search_range == 0)
      (λ _. (stop-IsStopped s v).same_next) (λ _. (stop-IsStopped s v).same_next)

Step-WithNext :
    (n : ℕ) (s t : StreamServer) → n + 1 < 2 ^ 32 → Step s t → WithNext n s → WithNext (suc n) t
unfolding broadcast_binary broadcast_text
Step-WithNext n s t small step (v, h) = by_step step
  where
    grows : (u : StreamServer) → u.next_client_id ≡ s.next_client_id → u.next_client_id ≤ suc n
    grows u e = omega (arith, h, e)

    to_t : (u : StreamServer) → t ≡ u → WithNext (suc n) u → WithNext (suc n) t
    to_t u e w = subst (WithNext (suc n)) (sym e) w

    starts-next :
        (port : ℕ) (binds : ℕ → Bool) (provider : List ℕ → Option (Option Asset))
        (has_listener : Bool)
        → (start binds port provider has_listener s).0.next_client_id ≤ suc n
    starts-next port binds provider has_listener =
        omega (arith, h, start-next s v binds port provider has_listener)

    by_step : Step s t → WithNext (suc n) t
    by_step (authorizes check e) = to_t (set_upgrade_authorizer check s) e (
      kept s (set_upgrade_authorizer check s) v refl refl refl refl refl (λ x. x) refl,
      omega (arith, h),
    )
    by_step (limits limit e) = to_t (set_per_client_queue_limit limit s) e (
      kept s (set_per_client_queue_limit limit s) v refl refl refl refl refl (λ x. x) refl,
      omega (arith, h),
    )
    by_step (starts binds port provider has_listener e) =
        to_t (start binds port provider has_listener s).0 e (
          start-IsConsistent s binds port provider has_listener v,
          starts-next port binds provider has_listener,
        )
    by_step (stops e) =
        let k = stop-IsStopped s v in
        to_t (stop s) e (IsStopped-IsConsistent s (stop s) v k, grows (stop s) k.same_next)
    by_step (accepts r accepted on e) =
        to_t (accept r accepted s).0 e (accept-IsConsistent n s r accepted small on (v, h))
    by_step (moves xs ys c d split part e) =
        to_t (record s { connections = xs ++ d ∷ ys }) e
          (
            moves-IsConsistent s xs ys c d split (Part-client_id s.owner c d part) v,
            omega (arith, h),
          )
    by_step (sends_binary data_bytes e) =
        to_t (broadcast_binary data_bytes s) e
          (broadcast-IsConsistent s (write_frame [] binary data_bytes) true v, omega (arith, h))
    by_step (sends_text message e) =
        to_t (broadcast_text message s) e
          (broadcast-IsConsistent s (write_text_frame [] message) false v, omega (arith, h))

-- In every state that the server reaches from its construction in n steps of its callers, its
-- acceptor and its connections' threads, in any order, with n + 1 below 2^31, the client ids of the
-- connections are distinct and ascend in the order of acceptance and the next id is above them and
-- at most n + 1; while the server runs it has an acceptor, a listening socket and a port, and while
-- it does not it has none of them and no connection.
pub Reachable-IsConsistent :
    (to_base64 : List ℕ → List ℕ) (n : ℕ) (s : StreamServer)
    → n + 1 < 2 ^ 31
    → Reachable to_base64 n s
    → WithNext (suc n) s
unfolding AscendsIn ids
Reachable-IsConsistent to_base64 n s small initially = (
  record { distinct = omega arith; idle = λ _. (refl, refl, refl, refl); busy = λ r. absurd (cc) },
  omega arith,
)
Reachable-IsConsistent to_base64 n s small (after {n = m} {s = before} reach step) =
    let w = Reachable-IsConsistent to_base64 m before (omega (arith, small)) reach in
    Step-WithNext (suc m) before s (omega (arith, small)) step w
