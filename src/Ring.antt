-- ===== src/Ring.antt =====
-- core/AudioRingBuffer.h: the interleaved single-producer, single-consumer ring. juce::AbstractFifo,
-- which hands out the positions, is a parameter. Each call is one step, on the calling thread.
pub mod Fifo
pub mod Counting
pub mod Regions
pub mod Queue
pub mod Reading
mod Tests
use phonepostmix.Base.{
  ℕ, zero, suc, ◌+◌, ◌-◌, ◌*◌, min, Bool, true, false, ltb, leb, ◌==◌, ◌||◌, if◌then◌else◌, List,
  [], ◌∷◌, ◌++◌, length, get_or, set, take, drop, replicate,
}
use Fifo.{AbstractFifo, Scope}

-- A juce::AudioBuffer<float>: `sample channel frame` for `channels` channels of `frames` frames.
pub record AudioBuffer (A : Type 0) : Type 0 where
  pub channels : ℕ
  pub frames : ℕ
  pub sample : ℕ → ℕ → A

pub record RingBuffer (J : AbstractFifo) (A : Type 0) : Type 0 where
  pub fifo : J.Fifo
  pub storage : List A
  pub channels : ℕ
  pub overruns : ℕ

module _ (J : AbstractFifo) {A : Type 0} (zero_sample : A) where
  unfoldable pub reset : RingBuffer J A → RingBuffer J A
  reset r = record r { fifo = J.reset r.fifo; overruns = 0 }

  unfoldable pub prepare : RingBuffer J A → ℕ → ℕ → RingBuffer J A
  unfolding reset
  prepare r num_channels num_frames = reset (record r {
    channels = num_channels;
    storage = replicate (num_channels * num_frames) zero_sample;
    fifo = J.set_total_size num_frames r.fifo;
  })

  unfoldable pub release : RingBuffer J A → RingBuffer J A
  release r = record r { storage = []; fifo = J.set_total_size 1 r.fifo; channels = 0 }

-- The inner loop over the frames of one channel, from frame `i` on.
unfoldable pub copy_channel : {A : Type 0} → ℕ → ℕ → (ℕ → A) → ℕ → ℕ → List A → List A
copy_channel zero i src channels at storage = storage
copy_channel (suc n) i src channels at storage =
    copy_channel n (suc i) src channels at (set storage (at + i * channels) (src i))

-- The outer loop over the channels of the ring, from `ch` on. `offset` is the first source frame
-- and `start` the first frame of the region; a missing channel is the source's last.
unfoldable pub copy_channels :
    {A : Type 0} → ℕ → ℕ → AudioBuffer A → ℕ → ℕ → ℕ → ℕ → List A → List A
copy_channels zero ch source channels start block offset storage = storage
copy_channels (suc n) ch source channels start block offset storage =
    copy_channels n (suc ch) source channels start block offset (
      copy_channel block 0 (λ i. source.sample (min ch (source.channels - 1)) (offset + i)) channels
        (start * channels + ch) storage)

-- `copyRegion` of `write`.
unfoldable pub write_region : {A : Type 0} → AudioBuffer A → ℕ → ℕ → ℕ → ℕ → List A → List A
unfolding copy_channel copy_channels
write_region source channels start block offset storage =
    copy_channels channels 0 source channels start block offset storage

-- `copyRegion` of `read`: the interleaved samples of a region.
unfoldable pub read_region : {A : Type 0} → ℕ → ℕ → ℕ → List A → List A
read_region channels start block storage = take (block * channels) (drop (start * channels) storage)

module _ (J : AbstractFifo) {A : Type 0} where
  -- The scope's destructor moves the fifo on by what the scope handed out. A source with frames has
  -- one channel or more, as the code asserts; of one without, the code has no behaviour to model.
  unfoldable pub write : RingBuffer J A → AudioBuffer A → RingBuffer J A × Bool
  unfolding write_region
  write r source =
      if source.frames == 0
      then (r, true)
      else if (r.channels == 0) || ltb (J.free_space r.fifo) source.frames
      then (record r { overruns = r.overruns + 1 }, false)
      else let s = J.prepare_to_write r.fifo source.frames in
        let first = write_region source r.channels s.start1 s.size1 0 r.storage in
        let second = write_region source r.channels s.start2 s.size2 s.size1 first in
        (record r { storage = second; fifo = J.finished_write r.fifo (s.size1 + s.size2) }, true)

  -- The samples that go to `destination`, and the number of frames.
  unfoldable pub read : RingBuffer J A → ℕ → RingBuffer J A × List A × ℕ
  unfolding read_region
  read r max_frames =
      let frames = min max_frames (J.num_ready r.fifo) in
      let s = J.prepare_to_read r.fifo frames in
      if (r.channels == 0) || (max_frames == 0)
      then (r, [], 0)
      else if frames == 0
      then (r, [], 0)
      else (
        record r { fifo = J.finished_read r.fifo (s.size1 + s.size2) },
        read_region r.channels s.start1 s.size1 r.storage
            ++ read_region r.channels s.start2 s.size2 r.storage,
        frames,
      )
