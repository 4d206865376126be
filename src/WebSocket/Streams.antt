-- ===== src/WebSocket/Streams.antt =====
-- The frames that come out of a parser, one call of `nextFrame` after the other.
use phonepostmix.Base.{
  ℕ, zero, suc, ◌+◌, ◌≤◌, ◌<◌, ◌≡◌, refl, sym, ap, ◌∙◌, subst, arith, Bool, true, false, Bool-cases,
  inl, inr, Option, none, some, List, [], ◌∷◌, ◌++◌, length, append-nil,
}
use phonepostmix.WebSocket.{
  Opcode, Frame, FrameParser, fail, Decoded, short, bad, one, decode_frame, Round, returns, again,
  round, round_of, deliver, continue_message, unread, next_frame_loop, next_frame,
}
use phonepostmix.WebSocket.Splits.{Extends, Follows, round-Follows}
use phonepostmix.WebSocket.Parser.{
  IsValid, RoundKeeps, round-keeps, unread_shrinks, loop_errored, loop_returns, loop_again,
}

-- `nextFrame` gives the frames, and then none; `q` is the parser behind them.
unfoldable pub Yields : FrameParser → List Frame → FrameParser → Type 0
Yields p [] q = next_frame p ≡ some (q, none)
Yields p (f ∷ fs) q = (m : FrameParser) × (next_frame p ≡ some (m, some f)) × Yields m fs q

-- A round that returns no frame and no error has found too few bytes.
abbrev Waits : FrameParser → Decoded → Round → Type 0
Waits p d (returns q none) = q.errored ≡ false → (d ≡ short) × (q ≡ p)
Waits p d (returns q (some f)) = Unit {0}
Waits p d (again q) = Unit {0}

deliver-Waits :
    (p q : FrameParser) (d : Decoded) (fin : Bool) (op : Opcode) (payload : List ℕ)
    → Waits p d (deliver q fin op payload)
unfolding deliver continue_message fail
deliver-Waits p q d fin op payload = ground arith

round_of-Waits : (p : FrameParser) (d : Decoded) → Waits p d (round_of p d)
unfolding round_of fail
round_of-Waits p short = λ e. (refl, refl)
round_of-Waits p (bad message) = λ e. absurd (cc)
round_of-Waits p (one fin op payload total) =
    deliver-Waits p (record p { consumed = p.consumed + total }) (one fin op payload total) fin op
      payload

some_inj : {A : Type 0} {x y : A} → some x ≡ some y → x ≡ y
some_inj e = cc

pub loop_more :
    (n m : ℕ) (p : FrameParser) (x : FrameParser × Option Frame)
    → next_frame_loop n p ≡ some x
    → n ≤ m
    → next_frame_loop m p ≡ some x
loop_more zero m p x e h = absurd (unfold next_frame_loop in cc)
loop_more (suc n) zero p x e h = absurd (omega arith)
loop_more (suc n) (suc m) p x e h = elim (Bool-cases p.errored) [
  | inl flagged ↦ loop_errored m p flagged ∙ sym (loop_errored n p flagged) ∙ e
  | inr fine ↦ go fine (round p) refl (loop_more n m)
]
  where
    go :
        p.errored ≡ false
        → (r : Round) → round p ≡ r
        → ((q : FrameParser) (y : FrameParser × Option Frame)
            → next_frame_loop n q ≡ some y
            → n ≤ m
            → next_frame_loop m q ≡ some y)
        → next_frame_loop (suc m) p ≡ some x
    go fine (returns q r) k ih = loop_returns m p q r fine k ∙ sym (loop_returns n p q r fine k) ∙ e
    go fine (again q) k ih =
        loop_again m p q fine k ∙ ih q x (sym (loop_again n p q fine k) ∙ e) (omega (arith, h))

module _ (b : List ℕ) where
  -- What the loop gives on `q`, which has `b` behind the bytes of another parser, for which it
  -- gives `s` and the frame, if any. Where that one waits for bytes, it goes on from a `t` that
  -- has `b` behind the bytes the other one waits with.
  abbrev pub LoopFollows : ℕ → FrameParser → FrameParser → Option Frame → Type 0
  LoopFollows n q s (some f) =
      (t : FrameParser) × (next_frame_loop n q ≡ some (t, some f)) × Extends b s t
  LoopFollows n q s none =
      (s.errored ≡ true
        → (t : FrameParser) × (next_frame_loop n q ≡ some (t, none)) × Extends b s t)
      × (s.errored ≡ false
          → (t : FrameParser) × (m : ℕ) × Extends b s t
            × IsValid t
            × (next_frame_loop n q ≡ next_frame_loop m t)
            × (length (unread t) < m)
            × (b ≡ [] → next_frame_loop n q ≡ some (t, none)))

  LoopFollows-again :
      (n : ℕ) (q q2 s : FrameParser) (r : Option Frame)
      → next_frame_loop (suc n) q ≡ next_frame_loop n q2
      → LoopFollows n q2 s r
      → LoopFollows (suc n) q s r
  LoopFollows-again n q q2 s (some f) e (t, found, x) = (t, e ∙ found, x)
  LoopFollows-again n q q2 s none e (ended, waits) = (
    λ k. (let (t, found, x) = ended k in (t, e ∙ found, x)),
    λ k. (let (t, m, x, v, on, h, last) = waits k in (t, m, x, v, e ∙ on, h, λ o. e ∙ last o)),
  )

  round-waits :
      (p q : FrameParser)
      → decode_frame p.max_payload_size (unread p) ≡ short
      → Extends b p q
      → b ≡ []
      → round q ≡ returns q none
  unfolding round round_of
  round-waits p q e x nil = ap (round_of q) (
      ap (λ l. decode_frame l (unread q)) (ap (λ y. y.max_payload_size) x.same)
      ∙ ap (decode_frame p.max_payload_size)
          (x.behind ∙ ap (λ l. unread p ++ l) nil ∙ append-nil (unread p))
      ∙ e)

  LoopFollows-waits :
      (n : ℕ) (p q s : FrameParser)
      → p.errored ≡ false
      → round p ≡ returns s none
      → Extends b p q
      → IsValid q
      → length (unread q) < suc n
      → s.errored ≡ false
      → (t : FrameParser) × (m : ℕ) × Extends b s t
        × IsValid t
        × (next_frame_loop (suc n) q ≡ next_frame_loop m t)
        × (length (unread t) < m)
        × (b ≡ [] → next_frame_loop (suc n) q ≡ some (t, none))
  unfolding round
  LoopFollows-waits n p q s fine e x v h k =
      let (missing, same) =
        subst (Waits p (decode_frame p.max_payload_size (unread p))) e
          (round_of-Waits p (decode_frame p.max_payload_size (unread p))) k in
      (
        q,
        suc n,
        subst (λ y. Extends b y q) (sym same) x,
        v,
        refl,
        h,
        λ nil.
            loop_returns n q q none (ap (λ y. y.errored) x.same ∙ fine)
              (round-waits p q missing x nil),
      )

  pub loop_follows :
      (n m : ℕ) (p q s : FrameParser) (r : Option Frame)
      → next_frame_loop n p ≡ some (s, r)
      → Extends b p q
      → IsValid p
      → IsValid q
      → length (unread q) < m
      → LoopFollows m q s r
  loop_follows zero m p q s r e x pv qv h = absurd (unfold next_frame_loop in cc)
  loop_follows (suc n) zero p q s r e x pv qv h = absurd (omega arith)
  loop_follows (suc n) (suc m) p q s r e x pv qv h = elim (Bool-cases p.errored) [
    | inl flagged ↦
        subst (λ y. LoopFollows (suc m) q y.0 y.1) (some_inj (sym (loop_errored n p flagged) ∙ e))
          (λ _. (q, loop_errored m q (same_error ∙ flagged), x), λ k. absurd (cc))
    | inr fine ↦
        go fine (round p) refl (round-Follows b p q fine x) (round-keeps p pv fine)
          (round-keeps q qv (same_error ∙ fine)) (loop_follows n m)
  ]
    where
      same_error : q.errored ≡ p.errored
      same_error = ap (λ y. y.errored) x.same

      go :
          p.errored ≡ false
          → (d : Round) → round p ≡ d
          → Follows b d (round q)
          → RoundKeeps p d
          → RoundKeeps q (round q)
          → ((p2 q2 s2 : FrameParser) (r2 : Option Frame)
              → next_frame_loop n p2 ≡ some (s2, r2)
              → Extends b p2 q2
              → IsValid p2
              → IsValid q2
              → length (unread q2) < m
              → LoopFollows m q2 s2 r2)
          → LoopFollows (suc m) q s r
      go fine (returns p2 none) k f pk qk ih =
          subst (λ y. LoopFollows (suc m) q y.0 y.1)
            (some_inj (sym (loop_returns n p p2 none fine k) ∙ e))
            (
              λ bad.
                  (let (q2, k2, x2) = f bad in
                    (q2, loop_returns m q q2 none (same_error ∙ fine) k2, x2)),
              LoopFollows-waits m p q p2 fine k x qv h,
            )
      go fine (returns p2 (some g)) k (q2, k2, x2) pk qk ih =
          subst (λ y. LoopFollows (suc m) q y.0 y.1)
            (some_inj (sym (loop_returns n p p2 (some g) fine k) ∙ e))
            (q2, loop_returns m q q2 (some g) (same_error ∙ fine) k2, x2)
      go fine (again p2) k (q2, k2, x2) pk qk ih =
          let (v, _, _, c, i) = subst (RoundKeeps q) k2 qk in
          LoopFollows-again m q q2 s r (loop_again m q q2 (same_error ∙ fine) k2) (
            ih p2 q2 s r (sym (loop_again n p p2 fine k) ∙ e) x2 pk.0 v
              (omega (arith, h, unread_shrinks q q2 v c i)))
