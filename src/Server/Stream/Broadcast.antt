-- ===== src/Server/Stream/Broadcast.antt =====
-- `broadcastBinary` and `broadcastText`: who gets the frame.
use phonepostmix.Base.{
  ℕ, suc, ◌+◌, ◌≡◌, refl, ap, Bool, true, false, if◌then◌else◌, List, [], ◌∷◌, ◌++◌, map,
}
use phonepostmix.Server.Queue.{Outgoing, SendQueue}
use phonepostmix.Server.Queue.Order.{controls, without_oldest, enqueue_drops_oldest}
use phonepostmix.Server.Thread.{Owner, Connection}
use phonepostmix.Server.Stream.{
  StreamServer, enqueue_on, num_clients, get_num_clients, broadcast_binary, broadcast_text,
}
use phonepostmix.WebSocket.{binary, write_frame, write_text_frame}

-- The lists have the same length, and `R` relates them place by place.
pub data Each (R : Connection → Connection → Type 0)
    : List Connection → List Connection → Type 0 where
  nil : Each R [] []
  cons :
      {c d : Connection} {cs ds : List Connection} → R c d → Each R cs ds → Each R (c ∷ cs) (d ∷ ds)

-- `c` becomes `d`: an upgraded connection gets the frame behind the others, less `k` of its oldest
-- droppable frames, and any other is as it was.
pub record Gets (x : Outgoing) (c d : Connection) : Type 0 where
  pub not_upgraded : c.upgraded ≡ false → d ≡ c
  pub queued :
      c.upgraded ≡ true
      → (k : ℕ) × (d.outgoing.queue ≡ without_oldest k (c.outgoing.queue ++ x ∷ []))
        × (d.outgoing.drops ≡ c.outgoing.drops + k)
  pub controls_kept :
      c.upgraded ≡ true → controls d.outgoing.queue ≡ controls (c.outgoing.queue ++ x ∷ [])
  pub rest_kept : d ≡ record c { outgoing = d.outgoing }

enqueue_on-Gets :
    (o : Owner) (frame : List ℕ) (droppable : Bool) (c : Connection)
    → Gets (record { frame = frame; droppable = droppable }) c (enqueue_on o frame droppable c)
enqueue_on-Gets o frame droppable c =
    let (closed_, open_) =
      enqueue_drops_oldest c.upgraded o.queue_limit_bytes c.outgoing frame droppable in
    record {
      not_upgraded =
          λ e. ap {A = SendQueue} {B = Connection} (λ q. record c { outgoing = q }) (closed_ e);
      queued = λ e. let (k, q, d, _) = open_ e in (k, q, d);
      controls_kept = λ e. let (_, _, _, w) = open_ e in w;
      rest_kept = refl;
    }

all-Gets :
    (o : Owner) (frame : List ℕ) (droppable : Bool) (xs : List Connection)
    → Each
        (Gets (record { frame = frame; droppable = droppable }))
        xs
        (map (enqueue_on o frame droppable) xs)
all-Gets o frame droppable [] = nil
all-Gets o frame droppable (c ∷ xs) =
    cons (enqueue_on-Gets o frame droppable c) (all-Gets o frame droppable xs)

num_clients-enqueue :
    (o : Owner) (frame : List ℕ) (droppable : Bool) (xs : List Connection)
    → num_clients (map (enqueue_on o frame droppable) xs) ≡ num_clients xs
unfolding num_clients
num_clients-enqueue o frame droppable [] = refl
num_clients-enqueue o frame droppable (c ∷ xs) =
    ap (λ n. if c.upgraded then suc n else n) (num_clients-enqueue o frame droppable xs)

-- A broadcast is queued once on each WebSocket client and on no other connection: audio as a
-- droppable frame and text as one that is never dropped, each behind what is queued. Then the
-- oldest droppable frames go, as many as the drop counter grows by; no control frame is lost, and
-- the number of clients stays.
pub broadcast_lem :
    (s : StreamServer) (bytes : List ℕ)
    → Each
        (Gets (record { frame = write_frame [] binary bytes; droppable = true }))
        s.connections
        (broadcast_binary bytes s).connections
      × Each
          (Gets (record { frame = write_text_frame [] bytes; droppable = false }))
          s.connections
          (broadcast_text bytes s).connections
      × (get_num_clients (broadcast_binary bytes s) ≡ get_num_clients s)
      × (get_num_clients (broadcast_text bytes s) ≡ get_num_clients s)
unfolding broadcast_binary broadcast_text
broadcast_lem s bytes = (
  all-Gets s.owner (write_frame [] binary bytes) true s.connections,
  all-Gets s.owner (write_text_frame [] bytes) false s.connections,
  num_clients-enqueue s.owner (write_frame [] binary bytes) true s.connections,
  num_clients-enqueue s.owner (write_text_frame [] bytes) false s.connections,
)
