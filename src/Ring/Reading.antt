-- ===== src/Ring/Reading.antt =====
-- Reading takes the oldest frames, in order.
use phonepostmix.Base.{
  ℕ, ◌+◌, ◌-◌, ◌*◌, ◌≤◌, ◌<◌, ◌≡◌, refl, sym, ap, ◌∙◌, ◌⊎◌, inl, inr, arith, min, ltb, ◌==◌, ◌||◌,
  List, [], ◌++◌, length, length-append, get_or, drop, length-take, length-drop, get_or-take,
  get_or-drop, get_or-append_of_lt, get_or-append_right, true, false, Bool-cases,
}
use phonepostmix.Ring.Fifo.{AbstractFifo, Scope, FifoLaws, Covers, slot}
use phonepostmix.Ring.{RingBuffer, read, read_region}
use phonepostmix.Ring.Regions.{index_lt, mul_mono}
use phonepostmix.Ring.Queue.{IsValid, frame_at}

module _ {A : Type 0} (z : A) where
  region_room :
      (n start block total len : ℕ)
      → start + block ≤ total
      → len ≡ total * n
      → start * n + block * n ≤ len
  region_room n start block total len h l = omega (arith, mul_mono (start + block) total n h)

  length-read_region :
      (n start block total : ℕ) (st : List A)
      → start + block ≤ total
      → length st ≡ total * n
      → length (read_region n start block st) ≡ block * n
  unfolding read_region
  length-read_region n start block total st h l = omega (
    arith,
    length-take (block * n) (drop (start * n) st),
    length-drop (start * n) st,
    region_room n start block total (length st) h l,
  )

  read_region_lem :
      (n start block : ℕ) (st : List A) (i c : ℕ)
      → i < block
      → c < n
      → get_or (read_region n start block st) (i * n + c) z ≡ get_or st ((start + i) * n + c) z
  unfolding read_region
  read_region_lem n start block st i c hi hc =
      get_or-take (block * n) (drop (start * n) st) (i * n + c) z (index_lt n i c block hc hi)
      ∙ get_or-drop (start * n) st (i * n + c) z
      ∙ ap (λ k. get_or st k z) (omega arith)

  -- Both regions together are the slots in their circular order.
  regions_lem :
      (n total p k : ℕ) (s : Scope) (st : List A) (i c : ℕ)
      → Covers total p k s
      → length st ≡ total * n
      → i < k
      → c < n
      → get_or
          (read_region n s.start1 s.size1 st ++ read_region n s.start2 s.size2 st)
          (i * n + c)
          z
        ≡ get_or st (slot total p i * n + c) z
  regions_lem n total p k s st i c v l hi hc =
      let l1 = length-read_region n s.start1 s.size1 total st v.up_to_end l in
      elim (Bool-cases (ltb i s.size1)) [
        | inl early ↦
            get_or-append_of_lt (read_region n s.start1 s.size1 st) _ (i * n + c) z
              (omega (arith, l1, index_lt n i c s.size1 hc (ground arith)))
            ∙ read_region_lem n s.start1 s.size1 st i c (ground arith) hc
            ∙ ap (λ b. get_or st (b * n + c) z) (ground (arith, v.starts, v.up_to_end))
        | inr late ↦
            let back : s.size1 ≤ i = ground arith in
            let split : i ≡ s.size1 + (i - s.size1) = omega arith in
            get_or-append_right (read_region n s.start1 s.size1 st) _ (i * n + c) z
              (omega (arith, l1, mul_mono s.size1 i n back))
            ∙ ap (λ b. get_or (read_region n s.start2 s.size2 st) b z)
                (omega (arith, l1, ap (λ (t : ℕ). t * n) split))
            ∙ read_region_lem n s.start2 s.size2 st (i - s.size1) c (omega (arith, v.both)) hc
            ∙ ap (λ b. get_or st (b * n + c) z)
                (ground (arith, v.starts, v.up_to_end, v.from_zero, v.both, v.wraps_at_end))
      ]

  length-regions :
      (n total p k : ℕ) (s : Scope) (st : List A)
      → Covers total p k s
      → length st ≡ total * n
      → k ≤ total
      → length (read_region n s.start1 s.size1 st ++ read_region n s.start2 s.size2 st) ≡ k * n
  length-regions n total p k s st v l h =
      length-append (read_region n s.start1 s.size1 st) (read_region n s.start2 s.size2 st)
      ∙ omega (
        arith,
        length-read_region n s.start1 s.size1 total st v.up_to_end l,
        length-read_region n s.start2 s.size2 total st (omega (arith, v.from_zero, v.both)) l,
        ap (λ (t : ℕ). t * n) v.both,
      )

module _ (J : AbstractFifo) (laws : FifoLaws J) {A : Type 0} (z : A) where
  -- The ring and the samples that `read` gives where there is something to read.
  module _ (r : RingBuffer J A) (k : ℕ) (v : IsValid J laws z r) (some_frames : 1 ≤ k)
      (there : k ≤ J.num_ready r.fifo) where
    covers : Covers (J.total_size r.fifo) (laws.position r.fifo) k (J.prepare_to_read r.fifo k)
    covers = laws.read_covers r.fifo k some_frames there

    taken : RingBuffer J A
    taken =
        let s = J.prepare_to_read r.fifo k in
        record r { fifo = J.finished_read r.fifo (s.size1 + s.size2) }

    taken_fifo : taken.fifo ≡ J.finished_read r.fifo k
    unfolding taken
    taken_fifo = ap (J.finished_read r.fifo) covers.both

    total-taken : J.total_size taken.fifo ≡ J.total_size r.fifo
    total-taken = ap J.total_size taken_fifo ∙ laws.total-finished_read r.fifo k

    taken-IsValid : IsValid J laws z taken
    taken-IsValid = record {
      has_slots = omega (arith, total-taken, v.has_slots);
      has_storage = unfold taken in (v.has_storage ∙ sym (ap (λ n. n * r.channels) total-taken));
    }

    slots :
        (j : ℕ)
        → k + j < J.num_ready r.fifo
        → slot (J.total_size taken.fifo) (laws.position taken.fifo) j
          ≡ slot (J.total_size r.fifo) (laws.position r.fifo) (k + j)
    slots j h =
        let moved = ap laws.position taken_fifo ∙ laws.position-finished_read r.fifo k there in
        rw (total-taken, moved)
          (ground (arith, laws.position_lt r.fifo v.has_slots, laws.one_free r.fifo v.has_slots))

    frame_at-taken :
        (j c : ℕ)
        → k + j < J.num_ready r.fifo
        → frame_at J laws z taken j c ≡ frame_at J laws z r (k + j) c
    unfolding frame_at taken
    frame_at-taken j c h = ap (λ b. get_or r.storage (b * r.channels + c) z) (slots j h)

    read_some :
        (max_frames : ℕ)
        → 1 ≤ max_frames
        → 1 ≤ r.channels
        → min max_frames (J.num_ready r.fifo) ≡ k
        → let s = J.prepare_to_read r.fifo k in
          read J r max_frames ≡ (
            taken,
            read_region r.channels s.start1 s.size1 r.storage
                ++ read_region r.channels s.start2 s.size2 r.storage,
            k,
          )
    unfolding read taken
    read_some max_frames hm hc e =
        let asked : ((r.channels == 0) || (max_frames == 0)) ≡ false = ground arith in
        let there' : (k == 0) ≡ false = ground arith in simp (e, asked, there')

  read_none :
      (r : RingBuffer J A) (max_frames : ℕ)
      → (r.channels ≡ 0) ⊎ ((max_frames ≡ 0) ⊎ (J.num_ready r.fifo ≡ 0))
      → read J r max_frames ≡ (r, [], 0)
  unfolding read
  read_none r max_frames h =
      let n = min max_frames (J.num_ready r.fifo) in
      elim (Bool-cases ((r.channels == 0) || (max_frames == 0))) [
        | inl e ↦ simp e
        | inr e ↦ let f : (n == 0) ≡ true = ground arith in simp (e, f)
      ]

  -- `read` gives the oldest frames, as many as were asked for and are ready, interleaved and in
  -- order, and takes exactly those away: what is behind them moves up. With nothing asked for, no
  -- channels or nothing ready it gives no frame and changes nothing.
  pub read_takes_oldest :
      (r : RingBuffer J A) (max_frames : ℕ)
      → IsValid J laws z r
      → let n = min max_frames (J.num_ready r.fifo) in
        let q = (read J r max_frames).0 in
        let out = (read J r max_frames).1 in
        ((r.channels ≡ 0) ⊎ ((max_frames ≡ 0) ⊎ (J.num_ready r.fifo ≡ 0))
          → read J r max_frames ≡ (r, [], 0))
        × (1 ≤ r.channels
            → 1 ≤ n
            → ((read J r max_frames).2 ≡ n)
              × IsValid J laws z q
              × (J.num_ready q.fifo + n ≡ J.num_ready r.fifo)
              × (length out ≡ n * r.channels)
              × ((i c : ℕ)
                  → i < n
                  → c < r.channels
                  → get_or out (i * r.channels + c) z ≡ frame_at J laws z r i c)
              × ((j c : ℕ)
                  → n + j < J.num_ready r.fifo
                  → frame_at J laws z q j c ≡ frame_at J laws z r (n + j) c))
  unfolding frame_at
  read_takes_oldest r max_frames v =
      let n = min max_frames (J.num_ready r.fifo) in
      let s = J.prepare_to_read r.fifo n in
      (
        read_none r max_frames,
        λ hc hn.
            let there : n ≤ J.num_ready r.fifo = omega arith in
            let cov = covers r n v hn there in
            rw (read_some r n v hn there max_frames (omega arith) hc refl) (
              refl,
              taken-IsValid r n v hn there,
              ap (λ m. m + n) (ap J.num_ready (taken_fifo r n v hn there))
                  ∙ laws.ready-finished_read r.fifo n there,
              length-regions z r.channels (J.total_size r.fifo) (laws.position r.fifo) n s r.storage
                  cov v.has_storage (omega (arith, laws.one_free r.fifo v.has_slots)),
              λ i c hi hcc.
                  regions_lem z r.channels (J.total_size r.fifo) (laws.position r.fifo) n s
                    r.storage i c cov v.has_storage hi hcc,
              λ j c h. frame_at-taken r n v hn there j c h,
            ),
      )
