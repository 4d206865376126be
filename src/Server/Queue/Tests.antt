-- ===== src/Server/Queue/Tests.antt =====
-- The send queue at concrete frames.
use phonepostmix.Base.{ℕ, ◌+◌, ◌≡◌, refl, arith, true, false, [], ◌∷◌, ◌++◌, replicate}
use phonepostmix.Server.Queue.{Outgoing, SendQueue, trim, enqueue, erase_droppable}
use phonepostmix.Server.Queue.Order.{without_oldest, controls, total, Settled, enqueue_drops_oldest}
use phonepostmix.Server.Queue.Bounds.{IsValid, enqueue-IsValid}

abbrev audio : ℕ → Outgoing
audio n = record { frame = replicate n 7; droppable = true }

abbrev control : ℕ → Outgoing
control n = record { frame = replicate n 1; droppable = false }

-- A control frame between two audio frames, nine bytes in all.
abbrev backlog : SendQueue
backlog = record { queue = audio 3 ∷ control 2 ∷ audio 4 ∷ []; queued_bytes = 9; drops = 5 }

backlog-IsValid : IsValid backlog
unfolding total
backlog-IsValid = omega arith

enqueue-backlog : enqueue true 9 backlog (replicate 4 9) true ≡ record {
  queue = control 2 ∷ record { frame = replicate 4 9; droppable = true } ∷ [];
  queued_bytes = 6;
  drops = 7;
}
unfolding enqueue trim erase_droppable
enqueue-backlog = refl

enqueue_drops_oldest_example :
    (k : ℕ) × ((enqueue true 9 backlog (replicate 4 9) true).queue
      ≡ without_oldest k (backlog.queue ++ record { frame = replicate 4 9; droppable = true } ∷ []))
    × ((enqueue true 9 backlog (replicate 4 9) true).drops ≡ 5 + k)
    × (controls (enqueue true 9 backlog (replicate 4 9) true).queue
        ≡ controls (backlog.queue ++ record { frame = replicate 4 9; droppable = true } ∷ []))
enqueue_drops_oldest_example = (enqueue_drops_oldest true 9 backlog (replicate 4 9) true).1 refl

enqueue-IsValid_example :
    IsValid (enqueue true 9 backlog (replicate 4 9) true)
    × Settled 9 (enqueue true 9 backlog (replicate 4 9) true)
enqueue-IsValid_example =
    enqueue-IsValid 9 backlog (replicate 4 9) true backlog-IsValid (unfold total in omega arith)

abbrev one_control : SendQueue
one_control = record { queue = control 3 ∷ []; queued_bytes = 3; drops = 0 }
