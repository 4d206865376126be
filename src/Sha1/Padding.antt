-- ===== src/Sha1/Padding.antt =====
-- `finish`: the padding of FIPS 180-4, 5.1.1.
use phonepostmix.Base.{
  ℕ, zero, suc, ◌+◌, ◌-◌, ◌*◌, ◌%◌, ◌^◌, ◌≤◌, ◌<◌, ◌≡◌, sym, ap, ◌∙◌, arith, true, false, ◌==◌,
  List, [], ◌∷◌, ◌++◌, length, replicate,
}
use phonepostmix.Sha1.{Sha1, new_sha1, update, pad_zeros, big_endian, digest, finish, hash}
use phonepostmix.Sha1.Stream.{
  absorb_all, absorb_all-used, absorb_all-bits, update_lem, update-append,
}

update-used :
    (s : Sha1) (bytes : List ℕ)
    → s.buffer_used < 64
    → (update s bytes).buffer_used ≡ (s.buffer_used + length bytes) % 64
update-used s bytes small =
    ap (λ x. x.buffer_used) (update_lem s bytes small) ∙ absorb_all-used s bytes small

update_nil : (s : Sha1) → s.buffer_used < 64 → s.bit_count < 2 ^ 64 → update s [] ≡ s
update_nil s small fits =
    let same : (s.bit_count + 0 * 8) % 2 ^ 64 ≡ s.bit_count = omega arith in
    update_lem s [] small ∙ unfold absorb_all in ap (λ x. record s { bit_count = x }) same

update-fits : (s : Sha1) (bytes : List ℕ) → s.buffer_used < 64 → (update s bytes).bit_count < 2 ^ 64
update-fits s bytes small =
    let t = absorb_all s bytes in
    let below : (t.bit_count + length bytes * 8) % 2 ^ 64 < 2 ^ 64 = omega arith in
    omega (arith, ap (λ x. x.bit_count) (update_lem s bytes small), below)

-- Enough turns fill the buffer up to its 56th byte.
pad_zeros_lem :
    (fuel : ℕ) (s : Sha1) (k : ℕ)
    → s.buffer_used < 64
    → s.bit_count < 2 ^ 64
    → (s.buffer_used + k) % 64 ≡ 56
    → k < 64
    → k ≤ fuel
    → pad_zeros fuel s ≡ update s (replicate k 0)
unfolding pad_zeros
pad_zeros_lem zero s zero small fits even short enough = sym (update_nil s small fits)
pad_zeros_lem zero s (suc k) small fits even short enough = absurd (omega arith)
pad_zeros_lem (suc fuel) s zero small fits even short enough =
    let there : (s.buffer_used == 56) ≡ true = ground arith in
    simp there (sym (update_nil s small fits))
pad_zeros_lem (suc fuel) s (suc k) small fits even short enough =
    let not_there : (s.buffer_used == 56) ≡ false = ground arith in
    let used = update-used s (0 ∷ []) small in
    simp not_there (
      pad_zeros_lem fuel (update s (0 ∷ [])) k (omega (arith, used)) (update-fits s (0 ∷ []) small)
        (omega (arith, used)) (omega arith) (omega arith)
      ∙ update-append s (0 ∷ []) (replicate k 0) small)

finish_lem :
    (s : Sha1) (k : ℕ)
    → s.buffer_used < 64
    → k < 64
    → (s.buffer_used + 1 + k) % 64 ≡ 56
    → (finish s).1 ≡ digest (update s (0x80 ∷ (replicate k 0 ++ big_endian 8 s.bit_count))).state
unfolding finish
finish_lem s k small short even =
    let t = update s (0x80 ∷ []) in
    let used = update-used s (0x80 ∷ []) small in
    let padded : pad_zeros 64 t ≡ update t (replicate k 0) =
      pad_zeros_lem 64 t k (omega (arith, used)) (update-fits s (0x80 ∷ []) small)
        (omega (arith, used)) short (omega arith) in
    ap (λ x. digest x.state)
      (ap (λ x. update x (big_endian 8 s.bit_count)) padded
        ∙ update-append t (replicate k 0) (big_endian 8 s.bit_count) (omega (arith, used))
        ∙ update-append s (0x80 ∷ []) (replicate k 0 ++ big_endian 8 s.bit_count) small)

-- The hash of a message is the digest of the state after the padded message, and the padding is the
-- standard's: a byte 0x80, fewer than 64 zeros, and the message's size in bits as 64 bits, the most
-- significant byte first, up to a whole number of 64-byte blocks. The loop that pads always ends.
pub hash_lem :
    (m : List ℕ)
    → (k : ℕ) × (k < 64)
      × ((length m + 1 + k + 8) % 64 ≡ 0)
      × (hash m
          ≡ digest
              (update new_sha1
                (m ++ 0x80 ∷ (replicate k 0 ++ big_endian 8 (length m * 8 % 2 ^ 64)))).state)
unfolding hash
hash_lem m =
    let s = update new_sha1 m in
    let used = update-used new_sha1 m (omega arith) in
    let bits : s.bit_count ≡ length m * 8 % 2 ^ 64 =
      ap (λ x. x.bit_count) (update_lem new_sha1 m (omega arith))
      ∙ omega (arith, absorb_all-bits new_sha1 m) in
    let k = (119 - length m % 64) % 64 in
    (
      k,
      omega arith,
      omega arith,
      finish_lem s k (omega (arith, used)) (omega arith) (omega (arith, used))
          ∙ ap (λ n. digest (update s (0x80 ∷ (replicate k 0 ++ big_endian 8 n))).state) bits
          ∙ ap (λ x. digest x.state) (update-append new_sha1 m _ (omega arith)),
    )
