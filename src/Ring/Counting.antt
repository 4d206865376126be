-- ===== src/Ring/Counting.antt =====
-- A concrete fifo that has the laws: two counters.
use phonepostmix.Base.{ℕ, ◌+◌, ◌-◌, ◌<◌, refl, arith, min, ltb, if◌then◌else◌}
use phonepostmix.Ring.Fifo.{AbstractFifo, Scope, FifoLaws, Covers, slot}

pub record Counters : Type 0 where
  pub total : ℕ
  pub start : ℕ
  pub count : ℕ

abbrev pub scope_at : ℕ → ℕ → ℕ → Scope
scope_at n p k =
    if ltb n (p + k)
    then record { start1 = p; size1 = n - p; start2 = 0; size2 = p + k - n }
    else record { start1 = p; size1 = k; start2 = 0; size2 = 0 }

-- `start` is kept below `total`.
abbrev pub wrapped_start : Counters → ℕ
wrapped_start f = if ltb f.start f.total then f.start else 0

abbrev pub counting : AbstractFifo
counting = record {
  Fifo = Counters;
  set_total_size = λ n f. record { total = n; start = 0; count = 0 };
  reset = λ f. record f { start = 0; count = 0 };
  total_size = λ f. f.total;
  num_ready = λ f. min f.count (f.total - 1);
  free_space = λ f. f.total - min f.count (f.total - 1) - 1;
  prepare_to_write =
      λ f k. scope_at f.total (slot f.total (wrapped_start f) (min f.count (f.total - 1))) k;
  finished_write = λ f k. record f { count = min f.count (f.total - 1) + k };
  prepare_to_read = λ f k. scope_at f.total (wrapped_start f) k;
  finished_read = λ f k. record f {
    start = slot f.total (wrapped_start f) k;
    count = min f.count (f.total - 1) - k;
  };
}

scope_at-Covers : (n p k : ℕ) → p < n → k < n → Covers n p k (scope_at n p k)
scope_at-Covers n p k hp hk = ground arith

pub counting-FifoLaws : FifoLaws counting
counting-FifoLaws = record {
  position = wrapped_start;
  position_lt = λ f h. ground arith;
  one_free = λ f h. ground arith;
  total-set_total_size = λ n f. refl;
  total-reset = λ f. refl;
  ready-reset = λ f. omega arith;
  write_covers = λ f k h l. scope_at-Covers f.total _ k (ground arith) (omega arith);
  total-finished_write = λ f k. refl;
  position-finished_write = λ f k. refl;
  ready-finished_write = λ f k h. ground arith;
  read_covers = λ f k h l. scope_at-Covers f.total _ k (ground arith) (omega arith);
  total-finished_read = λ f k. refl;
  position-finished_read = λ f k h. ground arith;
  ready-finished_read = λ f k h. ground arith;
}
