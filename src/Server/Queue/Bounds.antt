-- ===== src/Server/Queue/Bounds.antt =====
-- The byte count of the send queue, and when `enqueue` stops dropping.
use phonepostmix.Base.{
  ℕ, zero, suc, ◌+◌, ◌^◌, ◌≤◌, ◌<◌, ◌≡◌, refl, ap, ◌⊎◌, arith, Bool, true, none, some, List, [],
  ◌∷◌, ◌++◌, length, inl, inr,
}
use phonepostmix.Server.Queue.{
  Outgoing, SendQueue, trim, enqueue, appended, dropped, sub_size, dequeue, pop_front,
}
use phonepostmix.Server.Queue.Order.{total, Erases, Settled, trim_cases}

-- The counter is the number of queued bytes, and it has not wrapped.
pub record IsValid (s : SendQueue) : Type 0 where
  pub counted : s.queued_bytes ≡ total s.queue
  pub fits : total s.queue < 2 ^ 64

total-append : (xs ys : List Outgoing) → total (xs ++ ys) ≡ total xs + total ys
unfolding total
total-append [] ys = omega arith
total-append (o ∷ xs) ys = omega (arith, total-append xs ys)

dropped-IsValid :
    (s : SendQueue) (x : Outgoing) (rest : List Outgoing)
    → IsValid s
    → Erases s.queue x rest
    → IsValid (dropped s x rest)
dropped-IsValid s x rest v c = omega (arith, v.counted, v.fits, c.total_lem)

trim-IsValid :
    (fuel limit : ℕ) (s : SendQueue)
    → IsValid s
    → length s.queue ≤ fuel
    → IsValid (trim fuel limit s) × Settled limit (trim fuel limit s)
trim-IsValid zero limit s v h = unfold trim in (v, inr (inl (omega arith)))
trim-IsValid (suc fuel) limit s v h = elim (trim_cases fuel limit s) [
  | inl (done, e) ↦ rw e (v, done)
  | inr (x, rest, c, _, e) ↦ rw e (
      trim-IsValid fuel limit (dropped s x rest) (dropped-IsValid s x rest v c)
        (omega (arith, c.length_lem)))
]

appended-IsValid :
    (s : SendQueue) (o : Outgoing)
    → IsValid s
    → total s.queue + length o.frame < 2 ^ 64
    → IsValid (appended s o)
unfolding total
appended-IsValid s o v h = omega (arith, v.counted, total-append s.queue (o ∷ []))

-- While the queued bytes fit a size_t, `enqueue` keeps the byte counter exact, and it ends with the
-- queue within the limit, or with one frame, or with control frames only: the loop always gets there.
pub enqueue-IsValid :
    (limit : ℕ) (s : SendQueue) (frame : List ℕ) (droppable : Bool)
    → IsValid s
    → total s.queue + length frame < 2 ^ 64
    → let t = enqueue true limit s frame droppable in IsValid t × Settled limit t
unfolding enqueue
enqueue-IsValid limit s frame droppable v h =
    let o : Outgoing = record { frame = frame; droppable = droppable } in
    trim-IsValid (length (s.queue ++ o ∷ [])) limit (appended s o) (appended-IsValid s o v h)
      (omega arith)

-- Taking the front frame off keeps the counter exact; it fails on the empty queue only, and gives
-- the oldest frame.
pub dequeue_lem :
    (s : SendQueue)
    → IsValid s
    → ((s.queue ≡ []) × (dequeue s ≡ none))
      ⊎ ((o : Outgoing) × (t : SendQueue) × (dequeue s ≡ some (o, t))
          × (s.queue ≡ o ∷ t.queue)
          × (t.drops ≡ s.drops)
          × IsValid t)
unfolding dequeue
dequeue_lem s v = go s.queue refl
  where
    go :
        (q : List Outgoing)
        → s.queue ≡ q
        → ((q ≡ []) × (pop_front q s ≡ none))
          ⊎ ((o : Outgoing) × (t : SendQueue) × (pop_front q s ≡ some (o, t))
              × (q ≡ o ∷ t.queue)
              × (t.drops ≡ s.drops)
              × IsValid t)
    go [] e = inl (refl, unfold pop_front in refl)
    go (o ∷ rest) e = inr (
      o,
      record s { queue = rest; queued_bytes = sub_size s.queued_bytes (length o.frame) },
      unfold pop_front in refl,
      refl,
      refl,
      unfold total in omega (arith, v.counted, v.fits, ap total e),
    )
