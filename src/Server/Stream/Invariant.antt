-- ===== src/Server/Stream/Invariant.antt =====
-- What every step of the server keeps.
use phonepostmix.Base.{
  ℕ, suc, ◌+◌, ◌%◌, ◌^◌, ◌≤◌, ◌<◌, ◌≡◌, refl, sym, ap, ◌∙◌, subst, arith, Bool, true, false, not,
  ◌&&◌, ◌==◌, if◌then◌else◌, Option, List, [], ◌∷◌, ◌++◌, map, if_intro,
}
use phonepostmix.Server.Socket.{Ready, failed, not_yet, ready}
use phonepostmix.Server.Thread.{Asset, Owner, Connection, new_connection}
use phonepostmix.Server.Connection.{take_front, receive, read_frame, finish}
use phonepostmix.Server.Connection.Incoming.Answer.{handle_frame-answered}
use phonepostmix.Server.Stream.{
  StreamServer, max_payload_size, stop, search_port, port_search_range, start, reap, accept,
  enqueue_on,
}
use phonepostmix.Server.Stream.Steps.{
  Part, opens, takes, receives, parses, answers, ends, ids, AscendsIn, IsConsistent,
}

pub Part-client_id : (o : Owner) (c d : Connection) → Part o c d → d.client_id ≡ c.client_id
unfolding take_front receive read_frame finish
Part-client_id o c d (opens e) = ap (λ (x : Connection). x.client_id) e
Part-client_id o c d (takes e) = ap (λ (x : Connection). x.client_id) e ∙ ground arith
Part-client_id o c d (receives t e) = ap (λ (x : Connection). x.client_id) e ∙ ground arith
Part-client_id o c d (parses e) = ap (λ (x : Connection). x.client_id) e ∙ ground arith
Part-client_id o c d (answers op payload e) =
    ap (λ (x : Connection). x.client_id) (e ∙ ap (λ r. r.1) (handle_frame-answered o op payload c))
Part-client_id o c d (ends e) = ap (λ (x : Connection). x.client_id) e

AscendsIn-weaken :
    (low lower high : ℕ) (xs : List ℕ)
    → lower ≤ low
    → AscendsIn low high xs
    → AscendsIn lower high xs
unfolding AscendsIn
AscendsIn-weaken low lower high [] h a = omega arith
AscendsIn-weaken low lower high (x ∷ xs) h a = (omega (arith, a.0), a.1)

AscendsIn-append :
    (low high : ℕ) (xs : List ℕ)
    → AscendsIn low high xs
    → AscendsIn low (suc high) (xs ++ high ∷ [])
unfolding AscendsIn
AscendsIn-append low high [] a = (a, omega arith)
AscendsIn-append low high (x ∷ xs) a = (a.0, AscendsIn-append (suc x) high xs a.1)

pub ids-append : (xs ys : List Connection) → ids (xs ++ ys) ≡ ids xs ++ ids ys
unfolding ids
ids-append [] ys = refl
ids-append (c ∷ xs) ys = ap (◌∷◌ c.client_id) (ids-append xs ys)

reap-AscendsIn :
    (low high : ℕ) (xs : List Connection)
    → AscendsIn low high (ids xs)
    → AscendsIn low high (ids (reap xs))
unfolding AscendsIn ids reap
reap-AscendsIn low high [] a = a
reap-AscendsIn low high (c ∷ xs) a =
    let more = reap-AscendsIn (suc c.client_id) high xs a.1 in
    if_intro (λ ys. AscendsIn low high (ids ys)) c.finished
      (λ _. AscendsIn-weaken (suc c.client_id) low high (ids (reap xs)) (omega (arith, a.0)) more)
      (λ _. (a.0, more))

pub ids-broadcast :
    (o : Owner) (frame : List ℕ) (droppable : Bool) (xs : List Connection)
    → ids (map (enqueue_on o frame droppable) xs) ≡ ids xs
unfolding ids
ids-broadcast o frame droppable [] = refl
ids-broadcast o frame droppable (c ∷ xs) = ap (◌∷◌ c.client_id) (ids-broadcast o frame droppable xs)

AscendsIn-le : (low high : ℕ) (xs : List ℕ) → AscendsIn low high xs → low ≤ high
unfolding AscendsIn
AscendsIn-le low high [] a = a
AscendsIn-le low high (x ∷ xs) a = omega (arith, a.0, AscendsIn-le (suc x) high xs a.1)

-- The server behind `stop`.
pub record IsStopped (s t : StreamServer) : Type 0 where
  pub not_running : t.is_running ≡ false
  pub no_acceptor : t.has_acceptor ≡ false
  pub no_socket : t.has_listening_socket ≡ false
  pub no_port : t.bound_port ≡ 0
  pub no_connections : t.connections ≡ []
  pub same_next : t.next_client_id ≡ s.next_client_id

pub stop-IsStopped : (s : StreamServer) → IsConsistent s → IsStopped s (stop s)
unfolding stop
stop-IsStopped s v = go s.is_running s.has_acceptor refl refl
  where
    go :
        (r a : Bool)
        → s.is_running ≡ r
        → s.has_acceptor ≡ a
        → IsStopped s (
            if not r && not a then s else record s {
              is_running = false;
              has_acceptor = false;
              has_listening_socket = false;
              bound_port = 0;
              connections = [];
            })
    go true a er ea = record {
      not_running = refl;
      no_acceptor = refl;
      no_socket = refl;
      no_port = refl;
      no_connections = refl;
      same_next = refl;
    }
    go false true er ea = absurd (let (x, _, _, _) = v.idle er in cc)
    go false false er ea =
        let (x, y, z, w) = v.idle er in
        record {
          not_running = er;
          no_acceptor = ea;
          no_socket = y;
          no_port = z;
          no_connections = w;
          same_next = refl;
        }

pub IsStopped-IsConsistent : (s t : StreamServer) → IsConsistent s → IsStopped s t → IsConsistent t
unfolding AscendsIn ids
IsStopped-IsConsistent s t v h = record {
  distinct =
      subst (λ xs. AscendsIn 1 t.next_client_id (ids xs)) (sym h.no_connections)
        (omega
          (arith, h.same_next, AscendsIn-le 1 s.next_client_id (ids s.connections) v.distinct));
  idle = λ _. (h.no_acceptor, h.no_socket, h.no_port, h.no_connections);
  busy = λ r. absurd (let e = h.not_running in cc);
}

-- Where neither the flags nor the port change, and the ids do not.
pub kept :
    (s t : StreamServer)
    → IsConsistent s
    → t.is_running ≡ s.is_running
    → t.has_acceptor ≡ s.has_acceptor
    → t.has_listening_socket ≡ s.has_listening_socket
    → t.bound_port ≡ s.bound_port
    → t.next_client_id ≡ s.next_client_id
    → (s.connections ≡ [] → t.connections ≡ [])
    → ids t.connections ≡ ids s.connections
    → IsConsistent t
kept s t v r a l p n none_ same = record {
  distinct =
      subst (AscendsIn 1 t.next_client_id) (sym same)
        (subst (λ m. AscendsIn 1 m (ids s.connections)) (sym n) v.distinct);
  idle = λ e. let (x, y, z, w) = v.idle (sym r ∙ e) in (a ∙ x, l ∙ y, p ∙ z, none_ w);
  busy = λ e. let (x, y, z) = v.busy (sym r ∙ e) in (a ∙ x, l ∙ y, λ q. z (sym p ∙ q));
}

pub start-IsConsistent :
    (s : StreamServer) (binds : ℕ → Bool) (port : ℕ) (provider : List ℕ → Option (Option Asset))
    (has_listener : Bool)
    → IsConsistent s
    → IsConsistent (start binds port provider has_listener s).0
unfolding start
start-IsConsistent s binds port provider has_listener v =
    let h = stop-IsStopped s v in
    let k = IsStopped-IsConsistent s (stop s) v h in
    let bound = search_port binds (stop s).bound_port port port_search_range in
    if_intro (λ (x : StreamServer × Bool). IsConsistent x.0) (bound == 0)
      (λ e. record {
        distinct = k.distinct;
        idle = λ _. (h.no_acceptor, refl, ground arith, h.no_connections);
        busy = λ r. absurd (let n = h.not_running in cc);
      })
      (λ e. record {
        distinct = k.distinct;
        idle = λ r. absurd (let n = r in cc);
        busy = λ _. (refl, refl, ground arith);
      })

pub append_cons-nil {ℓ} : {A : Type 0} {B : Type ℓ} (xs ys : List A) (x : A) → xs ++ x ∷ ys ≡ [] → B
append_cons-nil [] ys x e = absurd (cc)
append_cons-nil (y ∷ xs) ys x e = absurd (cc)

abbrev pub WithNext : ℕ → StreamServer → Type 0
WithNext n t = IsConsistent t × (t.next_client_id ≤ n)

pub accept-IsConsistent :
    (n : ℕ) (s : StreamServer) (r : Ready) (accepted : Bool)
    → n + 1 < 2 ^ 32
    → s.has_acceptor ≡ true
    → WithNext n s
    → WithNext (suc n) (accept r accepted s).0
unfolding accept ids
accept-IsConsistent n s failed accepted small on (v, h) = (v, omega arith)
accept-IsConsistent n s not_yet accepted small on (v, h) = (v, omega arith)
accept-IsConsistent n s ready false small on (v, h) = (v, omega arith)
accept-IsConsistent n s ready true small on (v, h) =
    let next : (s.next_client_id + 1) % 2 ^ 32 ≡ suc s.next_client_id = omega arith in
    let c = new_connection s.next_client_id max_payload_size in
    let grown =
      AscendsIn-append 1 s.next_client_id (ids (reap s.connections))
        (reap-AscendsIn 1 s.next_client_id s.connections v.distinct) in
    (
      record {
        distinct =
            subst (λ m. AscendsIn 1 m (ids (reap s.connections ++ c ∷ []))) (sym next)
              (subst (AscendsIn 1 (suc s.next_client_id))
                (sym (ids-append (reap s.connections) (c ∷ []))) grown);
        idle = λ e. absurd (let x = (v.idle e).0 in cc);
        busy = λ e. v.busy e;
      },
      omega arith,
    )
