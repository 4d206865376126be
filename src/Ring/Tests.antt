-- ===== src/Ring/Tests.antt =====
-- The ring over the counting fifo.
use phonepostmix.Base.{ℕ, ◌+◌, ◌*◌, ◌<◌, ◌≡◌, refl, arith, min, true, [], ◌∷◌, length, get_or}
use phonepostmix.Ring.Counting.{counting, counting-FifoLaws}
use phonepostmix.Ring.{AudioBuffer, RingBuffer, write, read}
use phonepostmix.Ring.Queue.{IsValid, frame_at, write_appends}
use phonepostmix.Ring.Reading.{read_takes_oldest}

-- Before `prepare`.
abbrev fresh : RingBuffer counting ℕ
fresh = record {
  fifo = record { total = 1; start = 0; count = 0 };
  storage = [];
  channels = 0;
  overruns = 0;
}

-- Two channels, four slots: one frame is ready, in the last slot.
abbrev at_end : RingBuffer counting ℕ
at_end = record {
  fifo = record { total = 4; start = 3; count = 1 };
  storage = 0 ∷ 0 ∷ 0 ∷ 0 ∷ 0 ∷ 0 ∷ 30 ∷ 31 ∷ [];
  channels = 2;
  overruns = 0;
}

-- A mono block of two frames.
abbrev mono_block : AudioBuffer ℕ
mono_block = record { channels = 1; frames = 2; sample = λ c i. 100 + 10 * c + i }

at_end-IsValid : IsValid counting counting-FifoLaws 0 at_end
at_end-IsValid = record { has_slots = omega arith; has_storage = refl }

mono_duplicated :
    (write counting at_end mono_block).0.storage ≡ 100 ∷ 100 ∷ 101 ∷ 101 ∷ 0 ∷ 0 ∷ 30 ∷ 31 ∷ []
unfolding write
mono_duplicated = refl

read_wraps : (read counting (write counting at_end mono_block).0 2).1 ≡ 30 ∷ 31 ∷ 100 ∷ 100 ∷ []
unfolding write read
read_wraps = refl

write_appends_example :
    let q = (write counting at_end mono_block).0 in
    ((write counting at_end mono_block).1 ≡ true)
    × IsValid counting counting-FifoLaws 0 q
    × (q.overruns ≡ 0)
    × (counting.num_ready q.fifo ≡ 1 + 2)
    × ((j c : ℕ)
        → j < 1
        → c < 2
        → frame_at counting counting-FifoLaws 0 q j c
          ≡ frame_at counting counting-FifoLaws 0 at_end j c)
    × ((i c : ℕ)
        → i < 2
        → c < 2
        → frame_at counting counting-FifoLaws 0 q (1 + i) c ≡ mono_block.sample (min c 0) i)
write_appends_example =
    (write_appends counting counting-FifoLaws 0 at_end mono_block at_end-IsValid (omega arith)).1
      (omega arith) (omega arith)

read_takes_oldest_example :
    let q = (read counting at_end 3).0 in
    let out = (read counting at_end 3).1 in
    ((read counting at_end 3).2 ≡ 1)
    × IsValid counting counting-FifoLaws 0 q
    × (counting.num_ready q.fifo + 1 ≡ 1)
    × (length out ≡ 2)
    × ((i c : ℕ)
        → i < 1
        → c < 2
        → get_or out (i * 2 + c) 0 ≡ frame_at counting counting-FifoLaws 0 at_end i c)
    × ((j c : ℕ)
        → 1 + j < 1
        → frame_at counting counting-FifoLaws 0 q j c
          ≡ frame_at counting counting-FifoLaws 0 at_end (1 + j) c)
read_takes_oldest_example =
    (read_takes_oldest counting counting-FifoLaws 0 at_end 3 at_end-IsValid).1 (omega arith)
      (omega arith)
