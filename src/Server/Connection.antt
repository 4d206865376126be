-- ===== src/Server/Connection.antt =====
-- `drainQueue`, `pumpIncoming`, `run` and `finish` of `StreamServer::Connection`.
pub mod Draining
pub mod Incoming
pub mod Hearing
pub mod Lifecycle
pub mod Tests
use phonepostmix.Base.{
  ℕ, zero, suc, Bool, true, false, not, bytes_eq, if◌then◌else◌, Option, none, some, List, [], ◌∷◌,
  ◌++◌, length,
}
use phonepostmix.Server.Queue.{Outgoing, SendQueue, enqueue, dequeue}
use phonepostmix.Server.Socket.{Ready, failed, not_yet, ready}
use phonepostmix.Server.Thread.{
  Asset, Owner, Connection, Effect, sent, connected, disconnected, received, closed, Thread, ◌>>=◌,
  ◌>>◌, return, running, notify, WriteScript, send,
}
use phonepostmix.Server.Handshake.{HttpScript, handle_http}
use phonepostmix.WebSocket.{
  Opcode, continuation, text, binary, close, ping, pong, reserved, Frame, push, next_frame, unread,
  write_frame,
}

-- What other threads queue on the connection, in order.
unfoldable pub arrive : Owner → Bool → List Outgoing → SendQueue → SendQueue
arrive o upgraded [] q = q
arrive o upgraded (x ∷ arrivals) q =
    arrive o upgraded arrivals (enqueue upgraded o.queue_limit_bytes q x.frame x.droppable)

-- A turn of `drainQueue`: what has been queued since the last lock, and the write.
pub record DrainTurn : Type 0 where
  pub arrivals : List Outgoing
  pub write : WriteScript

-- The locked part of a turn, behind what other threads have queued.
unfoldable pub take_front : Owner → List Outgoing → Thread (Option Outgoing)
unfolding arrive
take_front o arrivals c =
    let q = arrive o c.upgraded arrivals c.outgoing in
    elim (dequeue q) [
      | none ↦ ([], record c { outgoing = q }, some none)
      | some (x, rest) ↦ ([], record c { outgoing = rest }, some (some x))
    ]

-- The rest of a turn; `again` is the next one.
abbrev pub write_front : Thread Bool → WriteScript → Option Outgoing → Thread Bool
write_front again s none = return true
write_front again s (some x) = do ok ← send x.frame s; if ok then again else return false

unfoldable pub drain_queue : Owner → List DrainTurn → Thread Bool
unfolding take_front send
drain_queue o [] = running
drain_queue o (t ∷ turns) = do
  next ← take_front o t.arrivals
  write_front (drain_queue o turns) t.write next

-- `arrivals n` is what other threads queue before the frame that has `n` more turns of fuel.
pub record PumpTurn : Type 0 where
  pub readiness : Ready
  pub chunk : List ℕ
  pub arrivals : ℕ → List Outgoing

unfoldable pub receive : PumpTurn → Thread Bool
receive t c =
    let pushed = record c { parser = push c.parser t.chunk } in
    elim t.readiness [
      | failed ↦ ([], c, some false)
      | not_yet ↦ ([], c, some true)
      | ready ↦ if bytes_eq t.chunk [] then ([], c, some false) else ([], pushed, some true)
    ]

unfoldable pub read_frame : Thread (Option Frame)
read_frame c = elim (next_frame c.parser) [
  | none ↦ ([], c, none)
  | some (p, r) ↦ ([], record c { parser = p }, some r)
]

-- `enqueue (pong, false)`
abbrev pub queue_pong : Owner → List ℕ → Connection → Connection
queue_pong o payload c = record c {
  outgoing = enqueue c.upgraded o.queue_limit_bytes c.outgoing (write_frame [] pong payload) false;
}

-- The body of the switch: whether the loop goes on.
unfoldable pub handle_frame : Owner → Opcode → List ℕ → Thread Bool
handle_frame o close payload c = ([], c, some false)
handle_frame o ping payload c = ([], queue_pong o payload c, some true)
handle_frame o text payload c = (notify o (received c.client_id payload), c, some true)
handle_frame o binary payload c = ([], c, some true)
handle_frame o pong payload c = ([], c, some true)
handle_frame o continuation payload c = ([], c, some true)
handle_frame o (reserved n) payload c = ([], c, some true)

abbrev pub others : Owner → List Outgoing → Connection → Connection
others o arrivals c = record c { outgoing = arrive o c.upgraded arrivals c.outgoing }

abbrev pub handle_result : Owner → Thread Bool → List Outgoing → Option Frame → Thread Bool
handle_result o again arrivals none c = ([], c, some (not c.parser.errored))
handle_result o again arrivals (some f) c =
    (do goes_on ← handle_frame o f.opcode f.payload; if goes_on then again else return false)
      (others o arrivals c)

-- The loop over the frames, on fuel.
unfoldable pub answer_frames : ℕ → Owner → (ℕ → List Outgoing) → Thread Bool
unfolding read_frame handle_frame
answer_frames zero o arrivals = running
answer_frames (suc fuel) o arrivals = do
  r ← read_frame
  handle_result o (answer_frames fuel o arrivals) (arrivals fuel) r

-- Every frame takes bytes, so this fuel is enough.
abbrev pub all_frames : Owner → PumpTurn → Thread Bool
all_frames o t c = answer_frames (suc (length (unread c.parser))) o t.arrivals c

unfoldable pub pump_incoming : Owner → PumpTurn → Thread Bool
unfolding receive answer_frames
pump_incoming o t = do ok ← receive t; if ok then all_frames o t else return false

pub record RoundTurn : Type 0 where
  pub should_exit : Bool
  pub drain : List DrainTurn
  pub pump : PumpTurn

-- The loop of `run`.
unfoldable pub rounds : Owner → List RoundTurn → Thread (Unit {0})
unfolding drain_queue pump_incoming
rounds o [] = running
rounds o (t ∷ turns) =
    let round = drain_queue o t.drain >>= λ drained.
    if drained
    then (pump_incoming o t.pump >>= λ pumped. if pumped then rounds o turns else return tt)
    else return tt in
    if t.should_exit then return tt else round

unfoldable pub finish : Owner → Thread (Unit {0})
finish o c =
    let note = if c.upgraded then notify o (disconnected c.client_id) else [] in
    (note ++ closed ∷ [], record c { upgraded = false; finished = true }, some tt)

unfoldable pub run : Owner → HttpScript → List RoundTurn → Thread (Unit {0})
unfolding handle_http rounds finish
run o s turns = do ok ← handle_http o s; if ok then (rounds o turns >> finish o) else finish o
