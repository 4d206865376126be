-- ===== src/WebSocket/Parser.antt =====
-- `FrameParser`: its invariant, and that `nextFrame` ends.
use phonepostmix.Base.{
  ℕ, zero, suc, ◌+◌, ◌*◌, ◌≤◌, ◌<◌, ◌≡◌, refl, ap, ◌∙◌, subst, arith, Option, none, some, List, [],
  ◌++◌, length, length-append, length-take, length-drop, take, drop, Bool, true, false, drop-length,
  drop-append_of_le, Bool-cases, inl, inr,
}
use phonepostmix.WebSocket.{
  Opcode, Frame, FrameParser, push, compact, fail, new_parser, extended_size, Decoded, short, bad,
  one, decode_frame, decode_body, decode_sized, Round, returns, again, round, round_of, deliver,
  next_frame_loop, next_frame, unread,
}
use phonepostmix.WebSocket.Frames.{length-unmask}

-- The reassembly buffer keeps to the limit as long as no error is flagged, and to twice the limit
-- always; it is empty when no message is in progress.
pub record IsValid (p : FrameParser) : Type 0 where
  pub in_bounds : p.consumed ≤ length p.incoming
  pub bounded : p.errored ≡ false → length p.assembly ≤ p.max_payload_size
  pub bounded_errored : length p.assembly ≤ 2 * p.max_payload_size
  pub idle : p.assembling ≡ false → p.assembly ≡ []

abbrev pub WithinLimit : ℕ → List ℕ → Decoded → Type 0
WithinLimit limit p short = Unit {0}
WithinLimit limit p (bad message) = Unit {0}
WithinLimit limit p (one fin op payload total) =
    (6 ≤ total) × (total ≤ length p) × (length payload ≤ limit)

decode_body-WithinLimit :
    (limit : ℕ) (p : List ℕ) (size header : ℕ)
    → size ≤ limit
    → 2 ≤ header
    → WithinLimit limit p (decode_body p size header)
unfolding decode_body
decode_body-WithinLimit limit p size header h l = ground (
  arith,
  length-unmask (take 4 (drop header p)) 0 (take size (drop (header + 4) p)),
  length-take size (drop (header + 4) p),
)

extended_size-le :
    (p : List ℕ) (size header : ℕ) → extended_size p ≡ some (size, header) → 2 ≤ header
unfolding extended_size
extended_size-le p size header e = ground arith

decode_sized-WithinLimit :
    (limit : ℕ) (p : List ℕ) (r : Option (ℕ × ℕ))
    → ((size header : ℕ) → r ≡ some (size, header) → 2 ≤ header)
    → WithinLimit limit p (decode_sized limit p r)
unfolding decode_sized
decode_sized-WithinLimit limit p none h = tt
decode_sized-WithinLimit limit p (some (size, header)) h =
    ground (arith, decode_body-WithinLimit limit p size header, h size header refl)

pub decode_frame-WithinLimit : (limit : ℕ) (p : List ℕ) → WithinLimit limit p (decode_frame limit p)
unfolding decode_frame
decode_frame-WithinLimit limit p =
    ground (arith, decode_sized-WithinLimit limit p (extended_size p) (extended_size-le p))

abbrev FrameWithin : ℕ → Option Frame → Type 0
FrameWithin limit none = Unit {0}
FrameWithin limit (some f) = length f.payload ≤ limit

-- A message takes six bytes at least.
abbrev Advances : FrameParser → FrameParser → Option Frame → Type 0
Advances p q none = p.consumed ≤ q.consumed
Advances p q (some f) = p.consumed + 6 ≤ q.consumed

Advances-trans :
    (p q s : FrameParser) (r : Option Frame)
    → p.consumed ≤ q.consumed
    → Advances q s r
    → Advances p s r
Advances-trans p q s none h k = omega arith
Advances-trans p q s (some f) h k = omega arith

-- What a round keeps, with the unread bytes that it takes where it goes round again.
abbrev pub RoundKeeps : FrameParser → Round → Type 0
RoundKeeps p (returns q r) =
    IsValid q
    × (q.max_payload_size ≡ p.max_payload_size)
    × FrameWithin p.max_payload_size r
    × Advances p q r
    × (q.incoming ≡ p.incoming)
RoundKeeps p (again q) =
    IsValid q
    × (q.max_payload_size ≡ p.max_payload_size)
    × (q.errored ≡ false)
    × (p.consumed + 6 ≤ q.consumed)
    × (q.incoming ≡ p.incoming)

deliver-keeps :
    (p : FrameParser) (fin : Bool) (op : Opcode) (payload : List ℕ) (total : ℕ)
    → IsValid p
    → p.errored ≡ false
    → 6 ≤ total
    → p.consumed + total ≤ length p.incoming
    → length payload ≤ p.max_payload_size
    → RoundKeeps p (deliver (record p { consumed = p.consumed + total }) fin op payload)
unfolding deliver
deliver-keeps p fin op payload total v e t r l = ground (arith, length-append p.assembly payload)

round_of-keeps :
    (p : FrameParser) (d : Decoded)
    → IsValid p
    → p.errored ≡ false
    → WithinLimit p.max_payload_size (unread p) d
    → RoundKeeps p (round_of p d)
unfolding round_of fail
round_of-keeps p short v e w = ground arith
round_of-keeps p (bad message) v e w = ground arith
round_of-keeps p (one fin op payload total) v e w =
    deliver-keeps p fin op payload total v e w.0
      (omega (arith, v.in_bounds, w.0, w.1, length-drop p.consumed p.incoming)) w.2

pub round-keeps : (p : FrameParser) → IsValid p → p.errored ≡ false → RoundKeeps p (round p)
unfolding round
round-keeps p v e = round_of-keeps p _ v e (decode_frame-WithinLimit p.max_payload_size (unread p))

-- What a call of `nextFrame` gives: a parser that is valid with the same limit and input, behind
-- what was consumed before, and a message within the limit, if any.
pub record Keeps (p q : FrameParser) (r : Option Frame) : Type 0 where
  pub valid : IsValid q
  pub same_limit : q.max_payload_size ≡ p.max_payload_size
  pub message_within : FrameWithin p.max_payload_size r
  pub advances : Advances p q r
  pub same_input : q.incoming ≡ p.incoming

pub loop_errored :
    (fuel : ℕ) (p : FrameParser) → p.errored ≡ true → next_frame_loop (suc fuel) p ≡ some (p, none)
unfolding next_frame_loop
loop_errored fuel p e = simp e

pub loop_returns :
    (fuel : ℕ) (p q : FrameParser) (r : Option Frame)
    → p.errored ≡ false
    → round p ≡ returns q r
    → next_frame_loop (suc fuel) p ≡ some (q, r)
unfolding next_frame_loop
loop_returns fuel p q r fine e = simp (fine, e)

pub loop_again :
    (fuel : ℕ) (p q : FrameParser)
    → p.errored ≡ false
    → round p ≡ again q
    → next_frame_loop (suc fuel) p ≡ next_frame_loop fuel q
unfolding next_frame_loop
loop_again fuel p q fine e = simp (fine, e)

abbrev Ends : ℕ → FrameParser → Type 0
Ends fuel p =
    (q : FrameParser) × (r : Option Frame) × (next_frame_loop fuel p ≡ some (q, r)) × Keeps p q r

Keeps-trans :
    {p q s : FrameParser} {r : Option Frame}
    → q.max_payload_size ≡ p.max_payload_size
    → p.consumed ≤ q.consumed
    → q.incoming ≡ p.incoming
    → Keeps q s r
    → Keeps p s r
Keeps-trans {p} {q} {s} {r} m c i k = record {
  valid = k.valid;
  same_limit = k.same_limit ∙ m;
  message_within = subst (λ l. FrameWithin l r) m k.message_within;
  advances = Advances-trans p q s r c k.advances;
  same_input = k.same_input ∙ i;
}

pub unread_shrinks :
    (p q : FrameParser)
    → IsValid q
    → p.consumed + 6 ≤ q.consumed
    → q.incoming ≡ p.incoming
    → length (unread q) < length (unread p)
unread_shrinks p q v h e = omega (
  arith,
  ap length e,
  v.in_bounds,
  length-drop p.consumed p.incoming,
  length-drop q.consumed q.incoming,
)

next_frame_loop-keeps :
    (fuel : ℕ) (p : FrameParser) → IsValid p → length (unread p) < fuel → Ends fuel p
next_frame_loop-keeps zero p v h = absurd (omega arith)
next_frame_loop-keeps (suc fuel) p v h = elim (Bool-cases p.errored) [
  | inl flagged ↦ (
    p,
    none,
    loop_errored fuel p flagged,
    record {
      valid = v;
      same_limit = refl;
      message_within = tt;
      advances = omega arith;
      same_input = refl;
    },
  )
  | inr fine ↦ go fine (round p) refl (round-keeps p v fine) (next_frame_loop-keeps fuel)
]
  where
    go :
        p.errored ≡ false
        → (d : Round) → round p ≡ d
        → RoundKeeps p d
        → ((q : FrameParser) → IsValid q → length (unread q) < fuel → Ends fuel q)
        → Ends (suc fuel) p
    go fine (returns q r) e (qv, m, w, c, i) ih = (
      q,
      r,
      loop_returns fuel p q r fine e,
      record { valid = qv; same_limit = m; message_within = w; advances = c; same_input = i },
    )
    go fine (again q) e (qv, m, _, c, i) ih =
        let (s, r, found, kept) = ih q qv (omega (arith, unread_shrinks p q qv c i)) in
        (s, r, loop_again fuel p q fine e ∙ found, Keeps-trans m (omega arith) i kept)

-- `nextFrame` ends on every valid parser: its loop never runs out of fuel. It keeps the parser
-- valid with the same limit, gives no message above the limit, and only moves on in its input.
pub next_frame-Keeps :
    (p : FrameParser)
    → IsValid p
    → (q : FrameParser) × (r : Option Frame) × (next_frame p ≡ some (q, r)) × Keeps p q r
unfolding next_frame
next_frame-Keeps p v = next_frame_loop-keeps (suc (length (unread p))) p v (omega arith)

pub new_parser-IsValid : (limit : ℕ) → IsValid (new_parser limit)
unfolding new_parser
new_parser-IsValid limit = ground arith

compact-unread :
    (p : FrameParser)
    → IsValid p
    → IsValid (compact p) × (unread (compact p) ≡ unread p) × ((compact p).errored ≡ p.errored)
unfolding compact
compact-unread p v = ground (arith, drop-length p.consumed p.incoming)

push-IsValid : (p : FrameParser) (bytes : List ℕ) → IsValid p → IsValid (push p bytes)
unfolding push
push-IsValid p bytes v =
    let (c, _, _) = compact-unread p v in
    ground (arith, c, length-append (compact p).incoming bytes)

-- `push` keeps the parser valid, and whatever it drops was parsed: the unread bytes are the old
-- ones with the new ones behind them. After an error it changes nothing.
pub push-unread :
    (p : FrameParser) (bytes : List ℕ)
    → IsValid p
    → IsValid (push p bytes)
      × (p.errored ≡ false → unread (push p bytes) ≡ unread p ++ bytes)
      × (p.errored ≡ true → push p bytes ≡ p)
unfolding push
push-unread p bytes v =
    let (c, same, _) = compact-unread p v in
    ground (
      arith,
      push-IsValid p bytes v,
      drop-append_of_le (compact p).consumed (compact p).incoming bytes c.in_bounds,
      ap (λ u. u ++ bytes) same,
    )
