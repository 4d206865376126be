-- ===== src/WebSocket/Splits.antt =====
-- The parser with more bytes behind its input: it does the same, as far as its input goes.
use phonepostmix.Base.{
  ℕ, ◌+◌, ◌≤◌, ◌≡◌, refl, sym, ap, ◌∙◌, subst, arith, Bool, true, false, none, some, List, ◌++◌,
  length, drop, drop-drop, drop-append_of_le,
}
use phonepostmix.WebSocket.{
  Opcode, FrameParser, fail, Decoded, short, bad, one, decode_frame, Round, returns, again, round,
  round_of, deliver, continue_message, unread,
}
use phonepostmix.WebSocket.Prefix.{Stands, decode_frame-append}
use phonepostmix.WebSocket.Parser.{WithinLimit, decode_frame-WithinLimit}

abbrev pub moved : List ℕ → ℕ → FrameParser → FrameParser
moved incoming consumed p = record p { incoming = incoming; consumed = consumed }

abbrev moved_round : List ℕ → ℕ → Round → Round
moved_round incoming consumed (returns p r) = returns (moved incoming consumed p) r
moved_round incoming consumed (again p) = again (moved incoming consumed p)

-- A round leaves the input and the position.
abbrev Buffered : FrameParser → Round → Type 0
Buffered p (returns q r) = (q.incoming ≡ p.incoming) × (q.consumed ≡ p.consumed)
Buffered p (again q) = (q.incoming ≡ p.incoming) × (q.consumed ≡ p.consumed)

module _ (p : FrameParser) (fin : Bool) (op : Opcode) (payload : List ℕ) where
  deliver-Buffered : Buffered p (deliver p fin op payload)
  unfolding deliver continue_message fail
  deliver-Buffered = ground arith

  deliver-moved :
      (incoming : List ℕ) (consumed : ℕ)
      → deliver (moved incoming consumed p) fin op payload
        ≡ moved_round incoming consumed (deliver p fin op payload)
  unfolding deliver continue_message fail
  deliver-moved incoming consumed = ground arith

module _ (b : List ℕ) where
  -- `q` is `p` with the bytes `b` behind its unread ones.
  pub record Extends (p q : FrameParser) : Type 0 where
    pub same : q ≡ moved q.incoming q.consumed p
    pub behind : unread q ≡ unread p ++ b

  -- What a round of the extended parser gives, where the other gives the first.
  abbrev pub Follows : Round → Round → Type 0
  Follows (returns p (some f)) r = (q : FrameParser) × (r ≡ returns q (some f)) × Extends p q
  Follows (again p) r = (q : FrameParser) × (r ≡ again q) × Extends p q
  Follows (returns p none) r =
      p.errored ≡ true → (q : FrameParser) × (r ≡ returns q none) × Extends p q

  moved-Extends :
      (p q : FrameParser) (incoming : List ℕ) (consumed : ℕ)
      → q.incoming ≡ p.incoming
      → q.consumed ≡ p.consumed
      → drop consumed incoming ≡ unread p ++ b
      → Extends q (moved incoming consumed q)
  moved-Extends p q incoming consumed i c behind = record {
    same = refl;
    behind =
        behind
        ∙ ap (λ n. drop n p.incoming ++ b) (sym c)
        ∙ ap (λ l. drop q.consumed l ++ b) (sym i);
  }

  moved_round-Follows :
      (p : FrameParser) (incoming : List ℕ) (consumed : ℕ) (r : Round)
      → Buffered p r
      → drop consumed incoming ≡ unread p ++ b
      → Follows r (moved_round incoming consumed r)
  moved_round-Follows p incoming consumed (returns q none) (i, c) behind =
      λ e. (moved incoming consumed q, refl, moved-Extends p q incoming consumed i c behind)
  moved_round-Follows p incoming consumed (returns q (some f)) (i, c) behind =
      (moved incoming consumed q, refl, moved-Extends p q incoming consumed i c behind)
  moved_round-Follows p incoming consumed (again q) (i, c) behind =
      (moved incoming consumed q, refl, moved-Extends p q incoming consumed i c behind)

  past_frame :
      (p : FrameParser) (incoming : List ℕ) (consumed total : ℕ)
      → total ≤ length (unread p)
      → drop consumed incoming ≡ unread p ++ b
      → drop (consumed + total) incoming ≡ drop (p.consumed + total) p.incoming ++ b
  past_frame p incoming consumed total h behind =
      sym (drop-drop total consumed incoming)
      ∙ ap (drop total) behind
      ∙ drop-append_of_le total (unread p) b h
      ∙ ap (λ l. l ++ b) (drop-drop total p.consumed p.incoming)

  round_of-Follows :
      (p : FrameParser) (incoming : List ℕ) (consumed : ℕ) (d : Decoded)
      → p.errored ≡ false
      → WithinLimit p.max_payload_size (unread p) d
      → drop consumed incoming ≡ unread p ++ b
      → (e : Decoded) → Stands d e
      → Follows (round_of p d) (round_of (moved incoming consumed p) e)
  unfolding round_of fail
  round_of-Follows p incoming consumed short fine w behind e stands = λ errored. absurd (cc)
  round_of-Follows p incoming consumed (bad message) fine w behind e stands = λ _.
      subst
        (λ x.
          (q : FrameParser) × (round_of (moved incoming consumed p) x ≡ returns q none)
          × Extends (fail p message) q)
        (sym stands)
        (fail (moved incoming consumed p) message, refl, record { same = refl; behind = behind })
  round_of-Follows p incoming consumed (one fin op payload total) fine w behind e stands =
      let ahead = record p { consumed = p.consumed + total } in
      let target = λ (x : Decoded).
        Follows (deliver ahead fin op payload) (round_of (moved incoming consumed p) x) in
      subst target (sym stands) (
        subst (Follows (deliver ahead fin op payload))
          (sym (deliver-moved ahead fin op payload incoming (consumed + total)))
          (moved_round-Follows ahead incoming (consumed + total) (deliver ahead fin op payload)
            (deliver-Buffered ahead fin op payload)
            (past_frame p incoming consumed total w.1 behind)))

  -- A round of a parser without an error.
  pub round-Follows :
      (p q : FrameParser) → p.errored ≡ false → Extends p q → Follows (round p) (round q)
  unfolding round
  round-Follows p q fine x =
      subst (λ y. Follows (round p) (round y)) (sym x.same)
        (round_of-Follows p q.incoming q.consumed (decode_frame p.max_payload_size (unread p)) fine
          (decode_frame-WithinLimit p.max_payload_size (unread p)) x.behind
          (decode_frame p.max_payload_size (unread q))
          (subst
            (λ u.
              Stands (decode_frame p.max_payload_size (unread p))
                (decode_frame p.max_payload_size u))
            (sym x.behind) (decode_frame-append (unread p) b p.max_payload_size)))
