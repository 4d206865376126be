-- ===== src/Ring/Fifo.antt =====
-- juce::AbstractFifo, as far as the ring relies on it.
use phonepostmix.Base.{ℕ, ◌+◌, ◌-◌, ◌≤◌, ◌<◌, ◌≡◌, ltb, if◌then◌else◌}

-- Two contiguous regions of the circular storage.
pub record Scope : Type 0 where
  pub start1 : ℕ
  pub size1 : ℕ
  pub start2 : ℕ
  pub size2 : ℕ

pub record AbstractFifo : Type 1 where
  pub Fifo : Type 0
  pub set_total_size : ℕ → Fifo → Fifo
  pub reset : Fifo → Fifo
  pub total_size : Fifo → ℕ
  pub num_ready : Fifo → ℕ
  pub free_space : Fifo → ℕ
  pub prepare_to_write : Fifo → ℕ → Scope
  pub finished_write : Fifo → ℕ → Fifo
  pub prepare_to_read : Fifo → ℕ → Scope
  pub finished_read : Fifo → ℕ → Fifo

-- The slot that lies `i` places behind slot `p` of a circle of `n`.
abbrev pub slot : ℕ → ℕ → ℕ → ℕ
slot n p i = if ltb (p + i) n then p + i else p + i - n

-- A scope of `k` slots, from `p` on round the circle of `n`: up to its end, and on from 0.
pub record Covers (n p k : ℕ) (s : Scope) : Type 0 where
  pub starts : s.start1 ≡ p
  pub up_to_end : s.start1 + s.size1 ≤ n
  pub from_zero : s.start2 ≡ 0
  pub both : s.size1 + s.size2 ≡ k
  pub wraps_at_end : s.size1 < k → s.start1 + s.size1 ≡ n

-- The documented behaviour: one slot stays free, so that a full fifo differs from an empty one;
-- writing covers the slots behind the ready ones, reading the oldest. `position` is the oldest.
pub record FifoLaws (J : AbstractFifo) : Type 0 where
  pub position : J.Fifo → ℕ
  pub position_lt : (f : J.Fifo) → 1 ≤ J.total_size f → position f < J.total_size f
  pub one_free :
      (f : J.Fifo) → 1 ≤ J.total_size f → J.free_space f + J.num_ready f + 1 ≡ J.total_size f
  pub total-set_total_size : (n : ℕ) (f : J.Fifo) → J.total_size (J.set_total_size n f) ≡ n
  pub total-reset : (f : J.Fifo) → J.total_size (J.reset f) ≡ J.total_size f
  pub ready-reset : (f : J.Fifo) → J.num_ready (J.reset f) ≡ 0
  pub write_covers :
      (f : J.Fifo) (k : ℕ)
      → 1 ≤ k
      → k ≤ J.free_space f
      → Covers
          (J.total_size f)
          (slot (J.total_size f) (position f) (J.num_ready f))
          k
          (J.prepare_to_write f k)
  pub total-finished_write :
      (f : J.Fifo) (k : ℕ) → J.total_size (J.finished_write f k) ≡ J.total_size f
  pub position-finished_write : (f : J.Fifo) (k : ℕ) → position (J.finished_write f k) ≡ position f
  pub ready-finished_write :
      (f : J.Fifo) (k : ℕ)
      → k ≤ J.free_space f
      → J.num_ready (J.finished_write f k) ≡ J.num_ready f + k
  pub read_covers :
      (f : J.Fifo) (k : ℕ)
      → 1 ≤ k
      → k ≤ J.num_ready f
      → Covers (J.total_size f) (position f) k (J.prepare_to_read f k)
  pub total-finished_read :
      (f : J.Fifo) (k : ℕ) → J.total_size (J.finished_read f k) ≡ J.total_size f
  pub position-finished_read :
      (f : J.Fifo) (k : ℕ)
      → k ≤ J.num_ready f
      → position (J.finished_read f k) ≡ slot (J.total_size f) (position f) k
  pub ready-finished_read :
      (f : J.Fifo) (k : ℕ)
      → k ≤ J.num_ready f
      → J.num_ready (J.finished_read f k) + k ≡ J.num_ready f
