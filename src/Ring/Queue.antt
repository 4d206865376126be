-- ===== src/Ring/Queue.antt =====
-- The ring is a first-in, first-out queue of frames, for every fifo that keeps its documented laws.
use phonepostmix.Base.{
  ℕ, ◌+◌, ◌-◌, ◌*◌, ◌≤◌, ◌<◌, ◌≡◌, refl, sym, ap, ◌∙◌, ◌⊎◌, arith, min, ltb, leb, ◌==◌, ◌&&◌, ◌||◌,
  if◌then◌else◌, List, length, get_or, length-replicate, true, false,
}
use phonepostmix.Ring.Fifo.{AbstractFifo, FifoLaws, Covers, slot}
use phonepostmix.Ring.{AudioBuffer, RingBuffer, prepare, write, write_region}
use phonepostmix.Ring.Regions.{write_region_lem, length-write_region}

module _ (J : AbstractFifo) (laws : FifoLaws J) {A : Type 0} (z : A) where
  -- The storage has a frame for every slot of the fifo.
  pub record IsValid (r : RingBuffer J A) : Type 0 where
    pub has_slots : 1 ≤ J.total_size r.fifo
    pub has_storage : length r.storage ≡ J.total_size r.fifo * r.channels

  -- The sample of channel `c` in the `j`-th oldest frame.
  unfoldable pub frame_at : RingBuffer J A → ℕ → ℕ → A
  frame_at r j c =
      get_or r.storage (slot (J.total_size r.fifo) (laws.position r.fifo) j * r.channels + c) z

  pub prepare-IsValid :
      (r : RingBuffer J A) (channels frames : ℕ)
      → 1 ≤ frames
      → let q = prepare J z r channels frames in
        IsValid q
        × (J.num_ready q.fifo ≡ 0)
        × (J.free_space q.fifo + 1 ≡ frames)
        × (q.channels ≡ channels)
        × (q.overruns ≡ 0)
  unfolding prepare
  prepare-IsValid r channels frames h =
      let f = J.set_total_size frames r.fifo in
      let total : J.total_size (J.reset f) ≡ frames =
        laws.total-reset f ∙ laws.total-set_total_size frames r.fifo in
      let free = laws.one_free (J.reset f) (omega (arith, total)) in
      (
        record {
          has_slots = omega (arith, total);
          has_storage =
              length-replicate (channels * frames) z
              ∙ omega (arith, ap (λ (t : ℕ). t * channels) total);
        },
        laws.ready-reset f,
        omega (arith, free, laws.ready-reset f, total),
        refl,
        refl,
      )

  -- The storage after a write, and the ring.
  stored : RingBuffer J A → AudioBuffer A → List A
  stored r source =
      let s = J.prepare_to_write r.fifo source.frames in
      write_region source r.channels s.start2 s.size2 s.size1
        (write_region source r.channels s.start1 s.size1 0 r.storage)

  written : RingBuffer J A → AudioBuffer A → RingBuffer J A
  unfolding stored
  written r source =
      let s = J.prepare_to_write r.fifo source.frames in
      record r { storage = stored r source; fifo = J.finished_write r.fifo (s.size1 + s.size2) }

  write_fits :
      (r : RingBuffer J A) (source : AudioBuffer A)
      → 1 ≤ source.frames
      → 1 ≤ r.channels
      → source.frames ≤ J.free_space r.fifo
      → write J r source ≡ (written r source, true)
  unfolding write written
  write_fits r source h c f =
      let some_frames : (source.frames == 0) ≡ false = ground arith in
      let room : ((r.channels == 0) || ltb (J.free_space r.fifo) source.frames) ≡ false =
        ground arith in
      simp (some_frames, room)

  write_refused :
      (r : RingBuffer J A) (source : AudioBuffer A)
      → 1 ≤ source.frames
      → (r.channels ≡ 0) ⊎ (J.free_space r.fifo < source.frames)
      → write J r source ≡ (record r { overruns = r.overruns + 1 }, false)
  unfolding write
  write_refused r source h f =
      let some_frames : (source.frames == 0) ≡ false = ground arith in
      let full : ((r.channels == 0) || ltb (J.free_space r.fifo) source.frames) ≡ true =
        ground arith in
      simp (some_frames, full)

  module _ (r : RingBuffer J A) (source : AudioBuffer A) (v : IsValid r) (h : 1 ≤ source.frames)
      (f : source.frames ≤ J.free_space r.fifo) where
    t : ℕ
    t = J.total_size r.fifo

    p : ℕ
    p = laws.position r.fifo

    ready : ℕ
    ready = J.num_ready r.fifo

    covers : Covers t (slot t p ready) source.frames (J.prepare_to_write r.fifo source.frames)
    unfolding t p ready
    covers = laws.write_covers r.fifo source.frames h f

    bounds : (p < t) × (ready + source.frames < t)
    unfolding t p ready
    bounds = omega (arith, laws.position_lt r.fifo v.has_slots, laws.one_free r.fifo v.has_slots)

    stored_lem :
        (b c : ℕ)
        → c < r.channels
        → let s = J.prepare_to_write r.fifo source.frames in
          get_or (stored r source) (b * r.channels + c) z ≡ (
            if ltb b s.size2
            then source.sample (min c (source.channels - 1)) (s.size1 + b)
            else if leb s.start1 b && ltb b (s.start1 + s.size1)
            then source.sample (min c (source.channels - 1)) (b - s.start1)
            else get_or r.storage (b * r.channels + c) z)
    unfolding stored t
    stored_lem b c hc =
        let s = J.prepare_to_write r.fifo source.frames in
        let st = write_region source r.channels s.start1 s.size1 0 r.storage in
        let first =
          write_region_lem source r.channels s.start1 s.size1 0 t r.storage b c z hc
            covers.up_to_end v.has_storage in
        let second =
          write_region_lem source r.channels s.start2 s.size2 s.size1 t st b c z hc
            (omega (arith, covers.from_zero, covers.both, bounds))
            (length-write_region source r.channels s.start1 s.size1 0 r.storage ∙ v.has_storage) in
        second ∙ ground (arith, first, covers.from_zero)

    kept :
        (j c : ℕ)
        → j < ready
        → c < r.channels
        → get_or (stored r source) (slot t p j * r.channels + c) z
          ≡ get_or r.storage (slot t p j * r.channels + c) z
    kept j c hj hc =
        stored_lem (slot t p j) c hc
        ∙ ground (arith, covers.starts, covers.up_to_end, covers.both, covers.wraps_at_end, bounds)

    added :
        (i c : ℕ)
        → i < source.frames
        → c < r.channels
        → get_or (stored r source) (slot t p (ready + i) * r.channels + c) z
          ≡ source.sample (min c (source.channels - 1)) i
    added i c hi hc =
        stored_lem (slot t p (ready + i)) c hc
        ∙ ground (arith, covers.starts, covers.up_to_end, covers.both, covers.wraps_at_end, bounds)

    written-IsValid : IsValid (written r source)
    unfolding written stored
    written-IsValid =
        let s = J.prepare_to_write r.fifo source.frames in
        let total = laws.total-finished_write r.fifo (s.size1 + s.size2) in
        record {
          has_slots = omega (arith, total, v.has_slots);
          has_storage =
              length-write_region source r.channels s.start2 s.size2 s.size1
                (write_region source r.channels s.start1 s.size1 0 r.storage)
              ∙ length-write_region source r.channels s.start1 s.size1 0 r.storage
              ∙ v.has_storage
              ∙ sym (ap (λ n. n * r.channels) total);
        }

    written_grows : J.num_ready (written r source).fifo ≡ J.num_ready r.fifo + source.frames
    unfolding written
    written_grows = rw covers.both (laws.ready-finished_write r.fifo source.frames f)

    frame_at-written :
        (j c : ℕ)
        → frame_at (written r source) j c ≡ get_or (stored r source) (slot t p j * r.channels + c) z
    unfolding frame_at written t p
    frame_at-written j c =
        rw (laws.total-finished_write r.fifo _, laws.position-finished_write r.fifo _)

  -- A block that fits is written whole: the frames that were ready stay as they are, and behind them
  -- stand the block's frames in order, a channel that the source lacks taken from its last. A block
  -- that does not fit, or comes when there are no channels, changes nothing but the overrun count.
  pub write_appends :
      (r : RingBuffer J A) (source : AudioBuffer A)
      → IsValid r
      → 1 ≤ source.frames
      → let q = (write J r source).0 in
        ((r.channels ≡ 0) ⊎ (J.free_space r.fifo < source.frames)
          → write J r source ≡ (record r { overruns = r.overruns + 1 }, false))
        × (1 ≤ r.channels
            → source.frames ≤ J.free_space r.fifo
            → ((write J r source).1 ≡ true)
              × IsValid q
              × (q.overruns ≡ r.overruns)
              × (J.num_ready q.fifo ≡ J.num_ready r.fifo + source.frames)
              × ((j c : ℕ)
                  → j < J.num_ready r.fifo
                  → c < r.channels
                  → frame_at q j c ≡ frame_at r j c)
              × ((i c : ℕ)
                  → i < source.frames
                  → c < r.channels
                  → frame_at q (J.num_ready r.fifo + i) c
                    ≡ source.sample (min c (source.channels - 1)) i))
  unfolding frame_at t p ready
  write_appends r source v h = (
    write_refused r source h,
    λ some_channels fits. rw (write_fits r source h some_channels fits) (
      refl,
      written-IsValid r source v h fits,
      unfold written in refl,
      written_grows r source v h fits,
      λ j c hj hc. frame_at-written r source v h fits j c ∙ kept r source v h fits j c hj hc,
      λ i c hi hc. frame_at-written r source v h fits _ c ∙ added r source v h fits i c hi hc,
    ),
  )
