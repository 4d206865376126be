-- ===== src/Server/Socket/Writing.antt =====
-- What `writeAll` puts on the wire.
use phonepostmix.Base.{
  ℕ, zero, suc, ◌+◌, ◌≤◌, ◌≡◌, ◌≢◌, refl, sym, ap, ◌∙◌, arith, Bool, true, false, not, ltb, ltb→le,
  ◌==◌, Option, none, some, List, [], ◌∷◌, ◌++◌, length, take, drop, take-nil, if_intro, subst,
}
use phonepostmix.Server.Socket.{
  Ready, failed, not_yet, ready, WriteTurn, Written, write_loop, write_all, deadline_from,
}

-- The first bytes of `bytes`, and all of them where the result is a success.
pub record Sends (bytes : List ℕ) (w : Written) : Type 0 where
  pub count : ℕ
  pub prefix : w.0 ≡ take count bytes
  pub whole : w.1 ≡ some true → w.0 ≡ bytes

take-add : (m n : ℕ) (xs : List ℕ) → take m xs ++ take n (drop m xs) ≡ take (m + n) xs
take-add zero n xs = ap (λ k. take k xs) (omega arith)
take-add (suc m) n [] = take-nil n ∙ sym (take-nil (suc m + n))
take-add (suc m) n (x ∷ xs) =
    let more : suc (m + n) ≡ suc m + n = omega arith in
    ap (◌∷◌ x) (take-add m n xs) ∙ ap (λ k. take k (x ∷ xs)) more

take-length : (n : ℕ) (xs : List ℕ) → length xs ≤ n → take n xs ≡ xs
take-length n [] h = take-nil n
take-length zero (x ∷ xs) h = absurd (omega arith)
take-length (suc n) (x ∷ xs) h = ap (◌∷◌ x) (take-length n xs (omega arith))

stopped :
    (bytes : List ℕ) (sent : ℕ) (r : Option Bool) → r ≢ some true → Sends bytes (take sent bytes, r)
stopped bytes sent r no_success = record {
  count = sent;
  prefix = refl;
  whole = λ e. absurd (no_success e);
}

complete :
    (bytes : List ℕ) (sent : ℕ) → length bytes ≤ sent → Sends bytes (take sent bytes, some true)
complete bytes sent all = record {
  count = sent;
  prefix = refl;
  whole = λ _. take-length sent bytes all;
}

write_loop-Sends :
    (deadline : ℕ) (bytes : List ℕ) (sent : ℕ) (turns : List WriteTurn)
    → Sends bytes (write_loop deadline bytes sent (take sent bytes) turns)
unfolding write_loop
write_loop-Sends deadline bytes sent [] =
    if_intro (Sends bytes) (ltb sent (length bytes)) (λ _. stopped bytes sent none (λ e. cc))
      (λ h. complete bytes sent (ltb→le _ _ h))
write_loop-Sends deadline bytes sent (t ∷ turns) =
    let refused = stopped bytes sent (some false) (λ e. cc) in
    let more = write_loop-Sends deadline bytes (sent + t.written) turns in
    let goes_on =
      subst (λ out. Sends bytes (write_loop deadline bytes (sent + t.written) out turns))
        (sym (take-add sent t.written bytes)) more in
    if_intro (Sends bytes) (not (ltb sent (length bytes))) (λ h. complete bytes sent (ground arith))
      (λ _.
        if_intro (Sends bytes) t.should_exit (λ _. refused)
          (λ _.
            if_intro (Sends bytes) (ltb deadline t.now) (λ _. refused)
              (λ _.
                tried t.readiness refused (write_loop-Sends deadline bytes sent turns)
                  (if_intro (Sends bytes) (t.written == 0) (λ _. refused) (λ _. goes_on)))))
  where
    tried :
        (r : Ready) {x y z : Written}
        → Sends bytes x
        → Sends bytes y
        → Sends bytes z
        → Sends bytes (elim r [ failed ↦ x | not_yet ↦ y | ready ↦ z ])
    tried failed f n d = f
    tried not_yet f n d = n
    tried ready f n d = d

-- Whatever the socket and the clock do, what `writeAll` puts out is a beginning of the bytes, in
-- order and with none twice, and where it succeeds it is all of them.
pub write_all_lem :
    (bytes : List ℕ) (start : ℕ) (turns : List WriteTurn)
    → Sends bytes (write_all bytes start turns)
unfolding write_all
write_all_lem bytes start turns = write_loop-Sends (deadline_from start) bytes 0 turns
