-- ===== src/Sha1/Stream.antt =====
-- `update`, byte by byte.
use phonepostmix.Base.{
  ℕ, zero, suc, ◌+◌, ◌-◌, ◌*◌, ◌%◌, ◌^◌, ◌≤◌, ◌<◌, ◌≡◌, refl, sym, ap, ◌∙◌, arith, min, Bool, true,
  false, ◌==◌, if◌then◌else◌, List, [], ◌∷◌, ◌++◌, length, set, take, drop, length-append,
  length-take, length-drop, take-append-drop,
}
use phonepostmix.Wire.{copy_bytes}
use phonepostmix.Sha1.{Sha1, flush, update_loop, update, process_block}

-- One byte.
unfoldable pub absorb : Sha1 → ℕ → Sha1
absorb s b =
    flush (record s { buffer = set s.buffer s.buffer_used b; buffer_used = s.buffer_used + 1 })

unfoldable pub absorb_all : Sha1 → List ℕ → Sha1
absorb_all s [] = s
absorb_all s (b ∷ bytes) = absorb_all (absorb s b) bytes

pub absorb_all-append :
    (s : Sha1) (xs ys : List ℕ) → absorb_all s (xs ++ ys) ≡ absorb_all (absorb_all s xs) ys
unfolding absorb_all
absorb_all-append s [] ys = refl
absorb_all-append s (x ∷ xs) ys = absorb_all-append (absorb s x) xs ys

abbrev filled : Sha1 → List ℕ → Sha1
filled s bytes = record s {
  buffer = copy_bytes s.buffer s.buffer_used bytes;
  buffer_used = s.buffer_used + length bytes;
}

absorb_short :
    (s : Sha1) (b : ℕ)
    → s.buffer_used + 1 < 64
    → absorb s b
      ≡ record s { buffer = set s.buffer s.buffer_used b; buffer_used = s.buffer_used + 1 }
unfolding absorb flush
absorb_short s b room = let no : (s.buffer_used + 1 == 64) ≡ false = ground arith in simp no

flush-filled :
    (s : Sha1) (b : ℕ) (bytes : List ℕ)
    → s.buffer_used + length (b ∷ bytes) ≤ 64
    → flush (filled s (b ∷ bytes)) ≡ absorb_all s (b ∷ bytes)
flush-filled s b [] fits = unfold absorb_all absorb copy_bytes in refl
flush-filled s b (c ∷ bytes) fits =
    let t = record s { buffer = set s.buffer s.buffer_used b; buffer_used = s.buffer_used + 1 } in
    let first : absorb s b ≡ t = absorb_short s b (omega arith) in
    let at : suc s.buffer_used ≡ s.buffer_used + 1 = omega arith in
    let count : s.buffer_used + length (b ∷ c ∷ bytes) ≡ s.buffer_used + 1 + length (c ∷ bytes) =
      omega arith in
    let same : filled s (b ∷ c ∷ bytes) ≡ filled t (c ∷ bytes) =
      unfold copy_bytes in rw (at, count) in
    ap flush same
    ∙ flush-filled t c bytes (omega arith)
    ∙ unfold absorb_all in ap (λ x. absorb_all x (c ∷ bytes)) (sym first)

-- Whatever the buffer holds, less than a block of it is used.
pub absorb_all-used :
    (s : Sha1) (bytes : List ℕ)
    → s.buffer_used < 64
    → (absorb_all s bytes).buffer_used ≡ (s.buffer_used + length bytes) % 64
unfolding absorb_all absorb flush
absorb_all-used s [] small = omega arith
absorb_all-used s (b ∷ bytes) small = ground (arith, absorb_all-used (absorb s b) bytes)

turn :
    (fuel : ℕ) (s : Sha1) (b : ℕ) (bytes : List ℕ) (m : ℕ)
    → min (length (b ∷ bytes)) (64 - s.buffer_used) ≡ suc m
    → update_loop (suc fuel) s (b ∷ bytes)
      ≡ update_loop fuel (flush (filled s (b ∷ take m bytes))) (drop m bytes)
unfolding update_loop
turn fuel s b bytes m e =
    let some : (length (b ∷ bytes) == 0) ≡ false = ground arith in
    let count : s.buffer_used + suc m ≡ s.buffer_used + length (b ∷ take m bytes) =
      omega (arith, length-take m bytes) in
    rw (e, some, count) refl

absorb-bits : (s : Sha1) (b : ℕ) → (absorb s b).bit_count ≡ s.bit_count
unfolding absorb flush
absorb-bits s b = ground arith

pub absorb_all-bits : (s : Sha1) (bytes : List ℕ) → (absorb_all s bytes).bit_count ≡ s.bit_count
unfolding absorb_all
absorb_all-bits s [] = refl
absorb_all-bits s (b ∷ bytes) = absorb_all-bits (absorb s b) bytes ∙ absorb-bits s b

pub update_loop_lem :
    (fuel : ℕ) (s : Sha1) (bytes : List ℕ)
    → s.buffer_used < 64
    → length bytes ≤ fuel
    → update_loop fuel s bytes ≡ absorb_all s bytes
update_loop_lem zero s [] small enough = unfold update_loop absorb_all in refl
update_loop_lem zero s (b ∷ bytes) small enough = absurd (omega arith)
update_loop_lem (suc fuel) s [] small enough = unfold update_loop absorb_all in refl
update_loop_lem (suc fuel) s (b ∷ bytes) small enough =
    let m = min (length (b ∷ bytes)) (64 - s.buffer_used) - 1 in
    let front = b ∷ take m bytes in
    let full = flush-filled s b (take m bytes) (omega (arith, length-take m bytes)) in
    turn fuel s b bytes m (omega arith)
    ∙ update_loop_lem fuel (flush (filled s front)) (drop m bytes)
        (rw full (omega (arith, absorb_all-used s front small)))
        (omega (arith, length-drop m bytes))
    ∙ ap (λ x. absorb_all x (drop m bytes)) full
    ∙ sym (absorb_all-append s front (drop m bytes))
    ∙ ap (λ x. absorb_all s (b ∷ x)) (take-append-drop m bytes)

abbrev pub counted : Sha1 → ℕ → Sha1
counted s n = record s { bit_count = (s.bit_count + n * 8) % 2 ^ 64 }

counted-if :
    (full : Bool) (n : ℕ) (x y : Sha1)
    → (if full then counted x n else counted y n) ≡ counted (if full then x else y) n
counted-if true n x y = refl
counted-if false n x y = refl

counted_twice : (s : Sha1) (m n k : ℕ) → m + n ≡ k → counted (counted s m) n ≡ counted s k
counted_twice s m n k e =
    let bits : ((s.bit_count + m * 8) % 2 ^ 64 + n * 8) % 2 ^ 64 ≡ (s.bit_count + k * 8) % 2 ^ 64 =
      omega arith in
    ap (λ x. record s { bit_count = x }) bits

absorb-counted : (s : Sha1) (n b : ℕ) → absorb (counted s n) b ≡ counted (absorb s b) n
unfolding absorb flush
absorb-counted s n b =
    let t = record s { buffer = set s.buffer s.buffer_used b; buffer_used = s.buffer_used + 1 } in
    counted-if (t.buffer_used == 64) n
      (record t { state = process_block t.buffer t.state; buffer_used = 0 }) t

absorb_all-counted :
    (s : Sha1) (n : ℕ) (bytes : List ℕ)
    → absorb_all (counted s n) bytes ≡ counted (absorb_all s bytes) n
unfolding absorb_all
absorb_all-counted s n [] = refl
absorb_all-counted s n (b ∷ bytes) =
    ap (λ x. absorb_all x bytes) (absorb-counted s n b) ∙ absorb_all-counted (absorb s b) n bytes

-- `update` counts the bits and takes the bytes one after the other.
pub update_lem :
    (s : Sha1) (bytes : List ℕ)
    → s.buffer_used < 64
    → update s bytes ≡ counted (absorb_all s bytes) (length bytes)
unfolding update
update_lem s bytes small =
    update_loop_lem (length bytes) (counted s (length bytes)) bytes small (omega arith)
    ∙ absorb_all-counted s (length bytes) bytes

-- While less than a block of the buffer is used, two updates do what one does with the bytes joined:
-- the digest does not depend on how the input is cut.
pub update-append :
    (s : Sha1) (xs ys : List ℕ) → s.buffer_used < 64 → update (update s xs) ys ≡ update s (xs ++ ys)
update-append s xs ys small =
    let t = absorb_all s xs in
    let less : t.buffer_used < 64 = omega (arith, absorb_all-used s xs small) in
    let all : s.buffer_used < 64 = small in
    ap (λ x. update x ys) (update_lem s xs small)
    ∙ update_lem (counted t (length xs)) ys less
    ∙ ap (λ x. counted x (length ys)) (absorb_all-counted t (length xs) ys)
    ∙ counted_twice (absorb_all t ys) (length xs) (length ys) (length (xs ++ ys))
        (sym (length-append xs ys))
    ∙ ap (λ x. counted x (length (xs ++ ys))) (sym (absorb_all-append s xs ys))
    ∙ sym (update_lem s (xs ++ ys) all)
