-- ===== src/WebSocket/Pushes.antt =====
-- `push` in one piece and in two: the frames that come out are the same.
use phonepostmix.Base.{
  ℕ, suc, ◌<◌, ◌≡◌, refl, sym, ap, ◌∙◌, subst, arith, true, false, Bool-cases, inl, inr, Option,
  none, some, List, [], ◌∷◌, ◌++◌, length, append-nil, append_assoc,
}
use phonepostmix.WebSocket.{Frame, FrameParser, push, compact, unread, next_frame, next_frame_loop}
use phonepostmix.WebSocket.Splits.{moved, Extends}
use phonepostmix.WebSocket.Streams.{Yields, LoopFollows, loop_follows, loop_more}
use phonepostmix.WebSocket.Parser.{IsValid, next_frame-Keeps, loop_errored, push-unread}

next_frame-IsValid :
    (p q : FrameParser) (r : Option Frame) → IsValid p → next_frame p ≡ some (q, r) → IsValid q
next_frame-IsValid p q r v e =
    let (q2, r2, found, k) = next_frame-Keeps p v in
    subst IsValid (let same = sym found ∙ e in cc) k.valid

Yields-IsValid : (fs : List Frame) (p q : FrameParser) → IsValid p → Yields p fs q → IsValid q
unfolding Yields
Yields-IsValid [] p q v y = next_frame-IsValid p q none v y
Yields-IsValid (f ∷ fs) p q v (m, e, y) =
    Yields-IsValid fs m q (next_frame-IsValid p m (some f) v e) y

module _ (b : List ℕ) where
  -- What comes out of `q`, where `fs` come out of a parser whose input `q` extends by `b`, with
  -- `s` behind them: the same, and where `s` has no error, all that comes out of a parser `t`.
  abbrev YieldsFollows : FrameParser → List Frame → FrameParser → Type 0
  YieldsFollows q fs s =
      (s.errored ≡ true → (t : FrameParser) × Yields q fs t × Extends b s t)
      × (s.errored ≡ false
          → (t : FrameParser) × Extends b s t
            × IsValid t
            × ((gs : List Frame) (r : FrameParser) → Yields t gs r → Yields q (fs ++ gs) r)
            × (b ≡ [] → Yields q fs t))

  next_frame-from :
      (n : ℕ) (q t : FrameParser) (x : FrameParser × Option Frame)
      → next_frame q ≡ next_frame_loop n t
      → length (unread t) < n
      → next_frame t ≡ some x
      → next_frame q ≡ some x
  unfolding next_frame
  next_frame-from n q t x e h k = e ∙ loop_more (suc (length (unread t))) n t x k (omega (arith, h))

  Yields-from :
      (n : ℕ) (q t : FrameParser)
      → next_frame q ≡ next_frame_loop n t
      → length (unread t) < n
      → (gs : List Frame) (r : FrameParser) → Yields t gs r
      → Yields q gs r
  unfolding Yields
  Yields-from n q t e h [] r y = next_frame-from n q t (r, none) e h y
  Yields-from n q t e h (g ∷ gs) r (m, k, y) = (m, next_frame-from n q t (m, some g) e h k, y)

  next_frame-follows :
      (p q s : FrameParser) (r : Option Frame)
      → IsValid p
      → IsValid q
      → next_frame p ≡ some (s, r)
      → Extends b p q
      → LoopFollows b (suc (length (unread q))) q s r
  unfolding next_frame
  next_frame-follows p q s r pv qv e x =
      loop_follows b (suc (length (unread p))) (suc (length (unread q))) p q s r e x pv qv
        (omega arith)

  Yields-follow :
      (fs : List Frame) (p q s : FrameParser)
      → IsValid p
      → IsValid q
      → Yields p fs s
      → Extends b p q
      → YieldsFollows q fs s
  unfolding Yields next_frame
  Yields-follow [] p q s pv qv y x =
      let (ended, waits) = next_frame-follows p q s none pv qv y x in
      (
        ended,
        λ k.
            (let (t, m, ext, v, on, h, last) = waits k in
              (t, ext, v, λ gs r. Yields-from m q t on h gs r, last)),
      )
  Yields-follow (f ∷ fs) p q s pv qv (m, e, y) x =
      let (m2, e2, x2) = next_frame-follows p q m (some f) pv qv e x in
      let (ended, waits) =
        Yields-follow fs m m2 s (next_frame-IsValid p m (some f) pv e)
          (next_frame-IsValid q m2 (some f) qv e2) y x2 in
      (
        λ k. (let (t, found, ext) = ended k in (t, (m2, e2, found), ext)),
        λ k.
            (let (t, ext, v, on, last) = waits k in
              (t, ext, v, λ gs r g. (m2, e2, on gs r g), λ nil. (m2, e2, last nil))),
      )

Yields-errored :
    (fs : List Frame) (p q : FrameParser) → p.errored ≡ true → Yields p fs q → (fs ≡ []) × (q ≡ p)
unfolding Yields next_frame
Yields-errored [] p q e y = (refl, let same = sym (loop_errored (length (unread p)) p e) ∙ y in cc)
Yields-errored (f ∷ fs) p q e (m, k, y) =
    absurd (let same = sym (loop_errored (length (unread p)) p e) ∙ k in cc)

Yields-nothing : (p : FrameParser) → p.errored ≡ true → Yields p [] p
unfolding Yields next_frame
Yields-nothing p e = loop_errored (length (unread p)) p e

push-moved :
    (p : FrameParser) (bytes : List ℕ)
    → p.errored ≡ false
    → push p bytes ≡ moved (push p bytes).incoming (push p bytes).consumed p
unfolding push compact
push-moved p bytes e = ground arith

push-Extends :
    (p : FrameParser) (a c : List ℕ)
    → IsValid p
    → p.errored ≡ false
    → Extends c (push p a) (push p (a ++ c))
push-Extends p a c v fine = record {
  same =
      push-moved p (a ++ c) fine
      ∙ sym
          (ap (moved (push p (a ++ c)).incoming (push p (a ++ c)).consumed) (push-moved p a fine));
  behind =
      (push-unread p (a ++ c) v).1 fine
      ∙ sym (append_assoc (unread p) a c)
      ∙ sym (ap (λ u. u ++ c) ((push-unread p a v).1 fine));
}

-- The second piece, pushed behind the first: nothing is missing then.
pushed-Extends :
    (q t : FrameParser) (c : List ℕ)
    → IsValid q
    → q.errored ≡ false
    → Extends c q t
    → Extends [] (push q c) t
pushed-Extends q t c v fine x = record {
  same = x.same ∙ sym (ap (moved t.incoming t.consumed) (push-moved q c fine));
  behind = x.behind ∙ sym ((push-unread q c v).1 fine) ∙ sym (append-nil (unread (push q c)));
}

Split : FrameParser → List ℕ → List ℕ → List Frame → FrameParser → Type 0
Split p a c fs r =
    (s : FrameParser) × Yields (push p (a ++ c)) fs s
    × (s ≡ moved s.incoming s.consumed r)
    × (r.errored ≡ false → unread s ≡ unread r)

module _ (p q r : FrameParser) (a c : List ℕ) (fs gs : List Frame) (v : IsValid p)
    (first : Yields (push p a) fs q) (second : Yields (push q c) gs r) where
  errored_before : p.errored ≡ true → Split p a c (fs ++ gs) r
  unfolding Split
  errored_before e =
      let kept_p = (push-unread p a v).2 e in
      let (no_fs, q_same) = Yields-errored fs (push p a) q (ap (λ y. y.errored) kept_p ∙ e) first in
      let qe = ap (λ y. y.errored) (q_same ∙ kept_p) ∙ e in
      let kept_q = (push-unread q c (subst IsValid (sym (q_same ∙ kept_p)) v)).2 qe in
      let (no_gs, r_same) =
        Yields-errored gs (push q c) r (ap (λ y. y.errored) kept_q ∙ qe) second in
      let r_p = r_same ∙ kept_q ∙ q_same ∙ kept_p in
      (
        p,
        subst (λ y. Yields y (fs ++ gs) p) (sym ((push-unread p (a ++ c) v).2 e))
            (subst (λ l. Yields p l p) (sym (ap (λ l. l ++ gs) no_fs ∙ no_gs))
              (Yields-nothing p e)),
        ap (moved p.incoming p.consumed) (sym r_p),
        λ _. ap unread (sym r_p),
      )

  errored_between : p.errored ≡ false → q.errored ≡ true → Split p a c (fs ++ gs) r
  unfolding Split
  errored_between fine e =
      let pv = (push-unread p a v).0 in
      let qv = Yields-IsValid fs (push p a) q pv first in
      let (t, found, x) =
        (Yields-follow c fs (push p a) (push p (a ++ c)) q pv (push-unread p (a ++ c) v).0 first
            (push-Extends p a c v fine)).0
          e in
      let kept = (push-unread q c qv).2 e in
      let (no_gs, r_same) = Yields-errored gs (push q c) r (ap (λ y. y.errored) kept ∙ e) second in
      (
        t,
        subst (λ l. Yields (push p (a ++ c)) l t) (sym (ap (λ l. fs ++ l) no_gs ∙ append-nil fs))
            found,
        x.same ∙ ap (moved t.incoming t.consumed) (sym (r_same ∙ kept)),
        λ f. absurd (let flagged = ap (λ y. y.errored) (r_same ∙ kept) ∙ e in cc),
      )

  never_errored : p.errored ≡ false → q.errored ≡ false → Split p a c (fs ++ gs) r
  unfolding Split
  never_errored fine k =
      let pv = (push-unread p a v).0 in
      let qv = Yields-IsValid fs (push p a) q pv first in
      let (t, x, tv, on, _) =
        (Yields-follow c fs (push p a) (push p (a ++ c)) q pv (push-unread p (a ++ c) v).0 first
            (push-Extends p a c v fine)).1
          k in
      let (ended, waits) =
        Yields-follow [] gs (push q c) t r (push-unread q c qv).0 tv second
          (pushed-Extends q t c qv k x) in
      elim (Bool-cases r.errored) [
        | inl bad ↦
            (let (s, found, ext) = ended bad in
              (s, on gs s found, ext.same, λ f. ext.behind ∙ append-nil (unread r)))
        | inr good ↦
            (let (s, ext, _, _, found) = waits good in
              (s, on gs s (found refl), ext.same, λ f. ext.behind ∙ append-nil (unread r)))
      ]

-- It does not matter how the bytes arrive: where `fs` come out of a valid parser after a first
-- piece is pushed, and `gs` after a second one is pushed behind, then `fs` and `gs` come out when
-- the two are pushed in one piece. The parser behind them is the same but for its buffer, and
-- waits with the same bytes unless an error is flagged.
pub pushes_split :
    (p q r : FrameParser) (a c : List ℕ) (fs gs : List Frame)
    → IsValid p
    → Yields (push p a) fs q
    → Yields (push q c) gs r
    → (s : FrameParser) × Yields (push p (a ++ c)) (fs ++ gs) s
      × (s ≡ moved s.incoming s.consumed r)
      × (r.errored ≡ false → unread s ≡ unread r)
unfolding Split
pushes_split p q r a c fs gs v first second = elim (Bool-cases p.errored) [
  | inl e ↦ errored_before p q r a c fs gs v first second e
  | inr fine ↦ elim (Bool-cases q.errored) [
    | inl e ↦ errored_between p q r a c fs gs v first second fine e
    | inr k ↦ never_errored p q r a c fs gs v first second fine k
  ]
]
