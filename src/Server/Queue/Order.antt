-- ===== src/Server/Queue/Order.antt =====
-- Which frames `enqueue` drops, and what becomes of the rest.
use phonepostmix.Base.{
  ℕ, zero, suc, ◌+◌, ◌≤◌, ◌<◌, ◌≡◌, refl, ap, ◌∙◌, ◌⊎◌, ◌≢◌, length-append, arith, Bool, true,
  false, ltb, ◌&&◌, if◌then◌else◌, Option, none, some, List, [], ◌∷◌, ◌++◌, length, Bool-cases, inl,
  inr,
}
use phonepostmix.Server.Queue.{
  Outgoing, SendQueue, erase_droppable, trim, enqueue, appended, dropped,
}

-- The specification: the queue without its oldest droppable frame, and without its `k` oldest.
unfoldable pub without_first : List Outgoing → List Outgoing
without_first [] = []
without_first (o ∷ queue) = if o.droppable then queue else o ∷ without_first queue

unfoldable pub without_oldest : ℕ → List Outgoing → List Outgoing
without_oldest zero queue = queue
without_oldest (suc k) queue = without_oldest k (without_first queue)

-- The control frames of a queue, in order.
unfoldable pub controls : List Outgoing → List Outgoing
controls [] = []
controls (o ∷ queue) = if o.droppable then controls queue else o ∷ controls queue

unfoldable pub count_droppable : List Outgoing → ℕ
count_droppable [] = 0
count_droppable (o ∷ queue) =
    if o.droppable then suc (count_droppable queue) else count_droppable queue

-- The bytes of the queued frames.
unfoldable pub total : List Outgoing → ℕ
total [] = 0
total (o ∷ queue) = length o.frame + total queue

-- `erase` at the oldest droppable frame.
pub record Erases (queue : List Outgoing) (x : Outgoing) (rest : List Outgoing) : Type 0 where
  pub erased : rest ≡ without_first queue
  pub is_droppable : x.droppable ≡ true
  pub length_lem : length queue ≡ suc (length rest)
  pub total_lem : total queue ≡ length x.frame + total rest
  pub count_lem : count_droppable queue ≡ suc (count_droppable rest)

abbrev pub EraseCases : List Outgoing → Option (Outgoing × List Outgoing) → Type 0
EraseCases queue none = count_droppable queue ≡ 0
EraseCases queue (some (x, rest)) = Erases queue x rest

pub erase_droppable-cases : (queue : List Outgoing) → EraseCases queue (erase_droppable queue)
unfolding erase_droppable count_droppable total without_first
erase_droppable-cases [] = refl
erase_droppable-cases (o ∷ queue) = ground (arith, erase_droppable-cases queue)

controls-without_first : (queue : List Outgoing) → controls (without_first queue) ≡ controls queue
unfolding without_first controls
controls-without_first [] = refl
controls-without_first (o ∷ queue) = ground (arith, controls-without_first queue)

pub controls-without_oldest :
    (k : ℕ) (queue : List Outgoing) → controls (without_oldest k queue) ≡ controls queue
unfolding without_oldest
controls-without_oldest zero queue = refl
controls-without_oldest (suc k) queue =
    controls-without_oldest k (without_first queue) ∙ controls-without_first queue

-- Where the loop stops: the queue is within the limit, or down to one frame, or all control frames.
abbrev pub Settled : ℕ → SendQueue → Type 0
Settled limit s = (s.queued_bytes ≤ limit) ⊎ ((length s.queue ≤ 1) ⊎ (count_droppable s.queue ≡ 0))

abbrev pub GoesOn : ℕ → ℕ → SendQueue → Type 0
GoesOn fuel limit s =
    (x : Outgoing) × (rest : List Outgoing) × Erases s.queue x rest
    × (limit < s.queued_bytes)
    × (trim (suc fuel) limit s ≡ trim fuel limit (dropped s x rest))

-- A round of the loop stops, or takes one entry away and goes on.
pub trim_cases :
    (fuel limit : ℕ) (s : SendQueue)
    → (Settled limit s × (trim (suc fuel) limit s ≡ s)) ⊎ GoesOn fuel limit s
unfolding trim
trim_cases fuel limit s = elim (Bool-cases (ltb limit s.queued_bytes && ltb 1 (length s.queue))) [
  | inl above ↦ go above (erase_droppable s.queue) refl (erase_droppable-cases s.queue)
  | inr fits ↦ inl (ground arith, simp fits)
]
  where
    go :
        (ltb limit s.queued_bytes && ltb 1 (length s.queue)) ≡ true
        → (r : Option (Outgoing × List Outgoing)) → erase_droppable s.queue ≡ r
        → EraseCases s.queue r
        → (Settled limit s × (trim (suc fuel) limit s ≡ s)) ⊎ GoesOn fuel limit s
    go above none e c = inl (inr (inr c), simp (above, e))
    go above (some (x, rest)) e c = inr (x, rest, c, ground arith, simp (above, e))

-- What a trimmed queue is to the one before: the same but for its `k` oldest droppable frames.
abbrev Trimmed : SendQueue → SendQueue → Type 0
Trimmed s t = (k : ℕ) × (t.queue ≡ without_oldest k s.queue) × (t.drops ≡ s.drops + k)

trim-Trimmed : (fuel limit : ℕ) (s : SendQueue) → Trimmed s (trim fuel limit s)
unfolding without_oldest
trim-Trimmed zero limit s = unfold trim in (0, refl, omega arith)
trim-Trimmed (suc fuel) limit s = elim (trim_cases fuel limit s) [
  | inl (_, e) ↦ (0, ap (λ t. t.queue) e, omega (arith, ap (λ t. t.drops) e))
  | inr (x, rest, c, _, e) ↦
      let (k, q, d) = trim-Trimmed fuel limit (dropped s x rest) in
      (
        suc k,
        ap (λ t. t.queue) e ∙ q ∙ ap (without_oldest k) c.erased,
        omega (arith, d, ap (λ t. t.drops) e),
      )
]

-- A frame queued on an upgraded connection goes behind the others, and then the `k` oldest droppable
-- frames are taken out, for the `k` by which the drop counter grows: every other frame keeps its
-- place, and no control frame is lost. Before the upgrade nothing is queued.
pub enqueue_drops_oldest :
    (upgraded : Bool) (limit : ℕ) (s : SendQueue) (frame : List ℕ) (droppable : Bool)
    → let o : Outgoing = record { frame = frame; droppable = droppable } in
      let t = enqueue upgraded limit s frame droppable in
      (upgraded ≡ false → t ≡ s)
      × (upgraded ≡ true
          → (k : ℕ) × (t.queue ≡ without_oldest k (s.queue ++ o ∷ []))
            × (t.drops ≡ s.drops + k)
            × (controls t.queue ≡ controls (s.queue ++ o ∷ [])))
unfolding enqueue
enqueue_drops_oldest false limit s frame droppable = (λ _. refl, λ e. cc)
enqueue_drops_oldest true limit s frame droppable =
    let o : Outgoing = record { frame = frame; droppable = droppable } in
    let (k, q, d) = trim-Trimmed (length (s.queue ++ o ∷ [])) limit (appended s o) in
    (λ e. cc, λ _. (k, q, d, ap controls q ∙ controls-without_oldest k (s.queue ++ o ∷ [])))

count_droppable-append :
    (queue : List Outgoing) (o : Outgoing)
    → o.droppable ≡ true
    → count_droppable (queue ++ o ∷ []) ≡ suc (count_droppable queue)
unfolding count_droppable
count_droppable-append [] o d = ground arith
count_droppable-append (x ∷ queue) o d = ground (arith, count_droppable-append queue o d)

without_first-append :
    (queue : List Outgoing) (o : Outgoing)
    → o.droppable ≡ true
    → count_droppable queue ≡ 0
    → without_first (queue ++ o ∷ []) ≡ queue
unfolding count_droppable without_first
without_first-append [] o d h = ground arith
without_first-append (x ∷ queue) o d h = ground (arith, without_first-append queue o d)

trim_controls :
    (fuel limit : ℕ) (s : SendQueue) → count_droppable s.queue ≡ 0 → trim fuel limit s ≡ s
trim_controls zero limit s h = unfold trim in refl
trim_controls (suc fuel) limit s h = elim (trim_cases fuel limit s) [
  | inl (_, e) ↦ e
  | inr (x, rest, c, _, _) ↦ absurd (omega (arith, c.count_lem))
]

positive_length : (queue : List Outgoing) → queue ≢ [] → 1 ≤ length queue
positive_length [] h = absurd (h refl)
positive_length (o ∷ queue) h = omega arith

trim_newest :
    (fuel limit : ℕ) (s : SendQueue) (o : Outgoing)
    → o.droppable ≡ true
    → s.queue ≢ []
    → count_droppable s.queue ≡ 0
    → limit < (appended s o).queued_bytes
    → fuel ≡ suc (length s.queue)
    → ((trim fuel limit (appended s o)).queue ≡ s.queue)
      × ((trim fuel limit (appended s o)).drops ≡ s.drops + 1)
trim_newest zero limit s o d n c h f = absurd (omega arith)
trim_newest (suc fuel) limit s o d n c h f = elim (trim_cases fuel limit (appended s o)) [
  | inl (settled, _) ↦ absurd (
      omega (
        arith,
        settled,
        positive_length s.queue n,
        length-append s.queue (o ∷ []),
        count_droppable-append s.queue o d,
      ))
  | inr (x, rest, e, _, step) ↦
      let left : count_droppable rest ≡ 0 =
        omega (arith, e.count_lem, count_droppable-append s.queue o d) in
      let whole = step ∙ trim_controls fuel limit (dropped (appended s o) x rest) left in
      (
        ap (λ t. t.queue) whole ∙ e.erased ∙ without_first-append s.queue o d c,
        ap (λ t. t.drops) whole,
      )
]

-- Behind control frames only, an audio frame that takes the queue above its limit is itself the
-- frame that is dropped, though it is the newest: the queue is left as it was.
pub enqueue_drops_newest :
    (limit : ℕ) (s : SendQueue) (frame : List ℕ)
    → s.queue ≢ []
    → count_droppable s.queue ≡ 0
    → limit < (appended s (record { frame = frame; droppable = true })).queued_bytes
    → ((enqueue true limit s frame true).queue ≡ s.queue)
      × ((enqueue true limit s frame true).drops ≡ s.drops + 1)
unfolding enqueue
enqueue_drops_newest limit s frame some_queued none_droppable above =
    let o : Outgoing = record { frame = frame; droppable = true } in
    trim_newest (length (s.queue ++ o ∷ [])) limit s o refl some_queued none_droppable above
      (omega (arith, length-append s.queue (o ∷ [])))
