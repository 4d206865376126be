-- ===== src/Server/Queue.antt =====
-- The send queue of `StreamServer::Connection`: `enqueue` and the locked part of `drainQueue`.
-- The mutex makes each of them one step. size_t arithmetic is modulo 2 ^ 64.
pub mod Order
pub mod Bounds
pub mod Thinning
mod Tests
use phonepostmix.Base.{
  ℕ, zero, suc, ◌+◌, ◌-◌, ◌%◌, ◌^◌, Bool, true, false, ltb, ◌&&◌, if◌then◌else◌, Option, none, some,
  List, [], ◌∷◌, ◌++◌, length, map,
}

pub record Outgoing : Type 0 where
  pub frame : List ℕ
  pub droppable : Bool

-- The part of a connection that the queue's lock guards, with this connection's share of the
-- server's drop counter, counted without the width of its int.
pub record SendQueue : Type 0 where
  pub queue : List Outgoing
  pub queued_bytes : ℕ
  pub drops : ℕ

abbrev pub add_size : ℕ → ℕ → ℕ
add_size a b = (a + b) % 2 ^ 64

abbrev pub sub_size : ℕ → ℕ → ℕ
sub_size a b = (a + 2 ^ 64 - b) % 2 ^ 64

-- std::find_if for a droppable entry, and `erase` at it: the entry and the queue without it.
unfoldable pub erase_droppable : List Outgoing → Option (Outgoing × List Outgoing)
erase_droppable [] = none
erase_droppable (o ∷ queue) = elim (erase_droppable queue) [
  | none ↦ if o.droppable then some (o, queue) else none
  | some (x, rest) ↦ if o.droppable then some (o, queue) else some (x, o ∷ rest)
]

-- The body of the loop, for the entry that was found.
abbrev pub dropped : SendQueue → Outgoing → List Outgoing → SendQueue
dropped s x rest = record s {
  queue = rest;
  queued_bytes = sub_size s.queued_bytes (length x.frame);
  drops = s.drops + 1;
}

-- The loop of `enqueue`, on fuel.
unfoldable pub trim : ℕ → ℕ → SendQueue → SendQueue
trim zero limit s = s
trim (suc fuel) limit s =
    let next : SendQueue = elim (erase_droppable s.queue) [
      | none ↦ s
      | some (x, rest) ↦ trim fuel limit (dropped s x rest)
    ] in
    if ltb limit s.queued_bytes && ltb 1 (length s.queue) then next else s

-- Appending, before the loop.
abbrev pub appended : SendQueue → Outgoing → SendQueue
appended s o = record s {
  queue = s.queue ++ o ∷ [];
  queued_bytes = add_size s.queued_bytes (length o.frame);
}

-- A round takes one entry away, so as many rounds as there are entries are enough.
unfoldable pub enqueue : Bool → ℕ → SendQueue → List ℕ → Bool → SendQueue
enqueue upgraded limit s frame droppable =
    let t = appended s (record { frame = frame; droppable = droppable }) in
    if upgraded then trim (length t.queue) limit t else s

-- One round of `drainQueue` under the lock: the front entry, or `none` on an empty queue.
unfoldable pub pop_front : List Outgoing → SendQueue → Option (Outgoing × SendQueue)
pop_front [] s = none
pop_front (next ∷ rest) s =
    some
      (next, record s { queue = rest; queued_bytes = sub_size s.queued_bytes (length next.frame) })

unfoldable pub dequeue : SendQueue → Option (Outgoing × SendQueue)
unfolding pop_front
dequeue s = pop_front s.queue s
