-- ===== src/Server/Connection/Draining.antt =====
-- `drainQueue`: what goes out, and what happens to control frames on the way.
pub mod Turns
use phonepostmix.Base.{
  ℕ, zero, suc, ◌+◌, ◌≤◌, ◌≡◌, ◌≢◌, refl, sym, ap, ◌∙◌, arith, Bool, true, false, if◌then◌else◌,
  Option, none, some, List, [], ◌∷◌, ◌++◌, append-nil, append_assoc, length, take,
}
use phonepostmix.Server.Queue.{Outgoing, SendQueue, enqueue, dequeue, pop_front}
use phonepostmix.Server.Queue.Order.{controls, enqueue_drops_oldest}
use phonepostmix.Server.Queue.Thinning.{Thins, Thins-refl, Thins-trans, Thins-append, enqueue-Thins}
use phonepostmix.Server.Socket.{Written, write_all}
use phonepostmix.Server.Socket.Writing.{Sends, write_all_lem}
use phonepostmix.Server.Thread.{
  Owner, Connection, Effect, sent, connected, disconnected, received, closed, threw, Thread, ◌>>=◌,
  return, send, WriteScript, notes,
}
use phonepostmix.Server.Connection.{arrive, DrainTurn, take_front, write_front, drain_queue}

-- The bytes among the effects.
unfoldable pub wire : List Effect → List ℕ
wire [] = []
wire (sent out ∷ effects) = out ++ wire effects
wire (closed ∷ effects) = wire effects
wire (threw ∷ effects) = wire effects
wire (connected id ∷ effects) = wire effects
wire (disconnected id ∷ effects) = wire effects
wire (received id message ∷ effects) = wire effects

unfoldable pub frames : List Outgoing → List ℕ
frames [] = []
frames (x ∷ xs) = x.frame ++ frames xs

-- The frames that other threads queue in the turns.
unfoldable pub arrived : List DrainTurn → List Outgoing
arrived [] = []
arrived (t ∷ turns) = t.arrivals ++ arrived turns

pub controls-append : (xs ys : List Outgoing) → controls (xs ++ ys) ≡ controls xs ++ controls ys
unfolding controls
controls-append [] ys = refl
controls-append (x ∷ xs) ys = ground (arith, controls-append xs ys)

pub enqueue-controls :
    (limit : ℕ) (q : SendQueue) (x : Outgoing)
    → controls (enqueue true limit q x.frame x.droppable).queue
      ≡ controls q.queue ++ controls (x ∷ [])
enqueue-controls limit q x =
    let (_, _, _, kept) = (enqueue_drops_oldest true limit q x.frame x.droppable).1 refl in
    kept ∙ controls-append q.queue (x ∷ [])

pub arrive-controls :
    (o : Owner) (arrivals : List Outgoing) (q : SendQueue)
    → controls (arrive o true arrivals q).queue ≡ controls q.queue ++ controls arrivals
unfolding arrive
arrive-controls o [] q = unfold controls in sym (append-nil (controls q.queue))
arrive-controls o (x ∷ arrivals) q =
    arrive-controls o arrivals (enqueue true o.queue_limit_bytes q x.frame x.droppable)
    ∙ ap (λ a. a ++ controls arrivals) (enqueue-controls o.queue_limit_bytes q x)
    ∙ append_assoc (controls q.queue) (controls (x ∷ [])) (controls arrivals)
    ∙ ap (λ a. controls q.queue ++ a) (sym (controls-append (x ∷ []) arrivals))

-- What becomes of the frames of a queue and of those that other threads add to it.
pub arrive-Thins :
    (o : Owner) (arrivals : List Outgoing) (q : SendQueue)
    → let t = arrive o true arrivals q in Thins (q.queue ++ arrivals) q.drops t.queue t.drops
unfolding arrive
arrive-Thins o [] q = rw (append-nil q.queue) (Thins-refl q.queue q.drops)
arrive-Thins o (x ∷ arrivals) q = rw (← append_assoc q.queue (x ∷ []) arrivals) (
    Thins-trans (Thins-append arrivals (enqueue-Thins o.queue_limit_bytes q x))
      (arrive-Thins o arrivals (enqueue true o.queue_limit_bytes q x.frame x.droppable)))

-- Taking from the front, which drops nothing.
abbrev pub Front : SendQueue → Option (Outgoing × SendQueue) → Type 0
Front q none = q.queue ≡ []
Front q (some (x, rest)) = (q.queue ≡ x ∷ rest.queue) × (q.drops ≡ rest.drops)

pub dequeue-Front : (q : SendQueue) → Front q (dequeue q)
unfolding dequeue
dequeue-Front q = go q.queue refl
  where
    go : (xs : List Outgoing) → q.queue ≡ xs → Front q (pop_front xs q)
    go [] e = unfold pop_front in e
    go (x ∷ xs) e = unfold pop_front in (e, refl)

-- What `drainQueue` does in the turns that it uses: it sends frames whole, and at the end perhaps the
-- beginning of one more. The frames taken and behind them the queue that is left are the frames queued
-- before and meanwhile, in order: only droppable ones are missing, as many as the drop counter has
-- grown by. Where it succeeds, every frame taken is whole, and the queue is empty.
pub record Drains (c : Connection) (turns : List DrainTurn)
    (r : List Effect × Connection × Option Bool) : Type 0 where
  pub used : List DrainTurn
  pub left : List DrainTurn
  pub split : turns ≡ used ++ left
  pub whole : List Outgoing
  pub last : List Outgoing
  pub count : ℕ
  pub one_at_most : length last ≤ 1
  pub out : wire r.0 ≡ frames whole ++ take count (frames last)
  pub fifo :
      Thins
        (c.outgoing.queue ++ arrived used)
        c.outgoing.drops
        (whole ++ last ++ r.1.outgoing.queue)
        r.1.outgoing.drops
  pub success : r.2 ≡ some true → (last ≡ []) × (r.1.outgoing.queue ≡ [])
  pub silent : notes r.0 ≡ []
  pub rest_kept : r.1 ≡ record c { outgoing = r.1.outgoing }
