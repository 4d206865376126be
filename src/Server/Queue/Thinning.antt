-- ===== src/Server/Queue/Thinning.antt =====
-- What the send queue may do with frames: keep them in order, or take droppable ones out.
use phonepostmix.Base.{
  ℕ, zero, suc, ◌+◌, ◌≡◌, refl, ◌∙◌, arith, true, List, [], ◌∷◌, ◌++◌, length, length-append, inl,
  inr, if_intro,
}
use phonepostmix.Server.Queue.{Outgoing, SendQueue, trim, enqueue, appended, dropped}
use phonepostmix.Server.Queue.Order.{without_first, trim_cases}

-- The second list is the first without some of its droppable frames.
pub data Thinned : List Outgoing → List Outgoing → Type 0 where
  nothing : Thinned [] []
  keeps : {xs ys : List Outgoing} → (x : Outgoing) → Thinned xs ys → Thinned (x ∷ xs) (x ∷ ys)
  drops :
      {xs ys : List Outgoing}
      → (x : Outgoing) → x.droppable ≡ true
      → Thinned xs ys
      → Thinned (x ∷ xs) ys

pub Thinned-refl : (xs : List Outgoing) → Thinned xs xs
Thinned-refl [] = nothing
Thinned-refl (x ∷ xs) = keeps x (Thinned-refl xs)

pub Thinned-trans : {xs ys zs : List Outgoing} → Thinned xs ys → Thinned ys zs → Thinned xs zs
Thinned-trans nothing b = b
Thinned-trans (drops x d a) b = drops x d (Thinned-trans a b)
Thinned-trans (keeps x a) (keeps y b) = keeps x (Thinned-trans a b)
Thinned-trans (keeps x a) (drops y d b) = drops x d (Thinned-trans a b)

pub Thinned-append :
    {xs ys : List Outgoing} (zs : List Outgoing) → Thinned xs ys → Thinned (xs ++ zs) (ys ++ zs)
Thinned-append zs nothing = Thinned-refl zs
Thinned-append zs (keeps x a) = keeps x (Thinned-append zs a)
Thinned-append zs (drops x d a) = drops x d (Thinned-append zs a)

Thinned-without_first : (xs : List Outgoing) → Thinned xs (without_first xs)
unfolding without_first
Thinned-without_first [] = nothing
Thinned-without_first (x ∷ xs) =
    if_intro (λ (ys : List Outgoing). Thinned (x ∷ xs) ys) x.droppable
      (λ d. drops x d (Thinned-refl xs)) (λ _. keeps x (Thinned-without_first xs))

-- What a queue that has been worked on is to the frames that have been in it: some droppable ones
-- are missing, as many as the counter has grown by.
pub record Thins (xs : List Outgoing) (before : ℕ) (ys : List Outgoing) (after : ℕ) : Type 0 where
  pub in_order : Thinned xs ys
  pub counted : length xs + before ≡ length ys + after

pub Thins-refl : (xs : List Outgoing) (n : ℕ) → Thins xs n xs n
Thins-refl xs n = record { in_order = Thinned-refl xs; counted = refl }

pub Thins-trans :
    {xs ys zs : List Outgoing} {a b c : ℕ} → Thins xs a ys b → Thins ys b zs c → Thins xs a zs c
Thins-trans p q = record {
  in_order = Thinned-trans p.in_order q.in_order;
  counted = p.counted ∙ q.counted;
}

pub Thins-append :
    {xs ys : List Outgoing} {a b : ℕ} (zs : List Outgoing)
    → Thins xs a ys b
    → Thins (xs ++ zs) a (ys ++ zs) b
Thins-append {xs = xs} {ys = ys} zs p = record {
  in_order = Thinned-append zs p.in_order;
  counted = omega (arith, p.counted, length-append xs zs, length-append ys zs);
}

pub Thins-behind :
    {xs ys : List Outgoing} {a b : ℕ} (x : Outgoing) → Thins xs a ys b → Thins (x ∷ xs) a (x ∷ ys) b
Thins-behind x p = record { in_order = keeps x p.in_order; counted = omega (arith, p.counted) }

trim-Thins :
    (fuel limit : ℕ) (s : SendQueue)
    → let t = trim fuel limit s in Thins s.queue s.drops t.queue t.drops
trim-Thins zero limit s = unfold trim in Thins-refl s.queue s.drops
trim-Thins (suc fuel) limit s = elim (trim_cases fuel limit s) [
  | inl (_, e) ↦ rw e (Thins-refl s.queue s.drops)
  | inr (x, rest, c, _, e) ↦
      let first : Thins s.queue s.drops rest (s.drops + 1) = record {
        in_order = rw c.erased (Thinned-without_first s.queue);
        counted = omega (arith, c.length_lem);
      } in
      rw e (Thins-trans first (trim-Thins fuel limit (dropped s x rest)))
]

pub enqueue-Thins :
    (limit : ℕ) (q : SendQueue) (x : Outgoing)
    → let t = enqueue true limit q x.frame x.droppable in
      Thins (q.queue ++ x ∷ []) q.drops t.queue t.drops
unfolding enqueue
enqueue-Thins limit q x = trim-Thins (length (q.queue ++ x ∷ [])) limit (appended q x)
