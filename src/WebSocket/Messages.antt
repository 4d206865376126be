-- ===== src/WebSocket/Messages.antt =====
-- `nextFrame` on what a client sends: whole frames, and messages in fragments.
use phonepostmix.Base.{
  ℕ, zero, suc, ◌+◌, ◌^◌, ◌≤◌, ◌<◌, ◌≡◌, refl, sym, ap, ◌∙◌, arith, ◌&&◌, ◌||◌, Option, some, List,
  [], ◌∷◌, ◌++◌, length, length-append, append_assoc, drop, drop-append, drop-drop, Bool, true,
  false, not, All,
}
use phonepostmix.WebSocket.{
  Opcode, continuation, Frame, FrameParser, one, decode_frame, returns, again, round, round_of,
  deliver, next_frame_loop, next_frame, unread, is_control, is_continuation,
}
use phonepostmix.WebSocket.Frames.{IsByte, IsOpcode, client_frame, decode_frame-client_frame}
use phonepostmix.WebSocket.Parser.{loop_returns, loop_again}

-- What a mask and a payload have to be for a frame within the limit.
pub record Sendable (limit : ℕ) (mask payload : List ℕ) : Type 0 where
  pub mask_bytes : All IsByte mask
  pub mask_length : length mask ≡ 4
  pub payload_bytes : All IsByte payload
  pub payload_within : length payload ≤ limit
  pub payload_wide : length payload < 2 ^ 64

-- The parser behind the frame.
abbrev pub past : FrameParser → Bool → Opcode → List ℕ → List ℕ → FrameParser
past p fin op mask payload = record p {
  consumed = p.consumed + length (client_frame fin op mask payload);
}

round-client_frame :
    (p : FrameParser) (fin : Bool) (op : Opcode) (mask payload rest : List ℕ)
    → IsOpcode op
    → Sendable p.max_payload_size mask payload
    → unread p ≡ client_frame fin op mask payload ++ rest
    → (round p ≡ deliver (past p fin op mask payload) fin op payload)
      × (unread (past p fin op mask payload) ≡ rest)
unfolding round
round-client_frame p fin op mask payload rest ok s e = (
  ap (round_of p) (ap (decode_frame p.max_payload_size) e ∙ decoded),
  sym (drop-drop total p.consumed p.incoming)
      ∙ ap (drop total) e
      ∙ drop-append (client_frame fin op mask payload) rest total refl,
)
  where
    total : ℕ
    total = length (client_frame fin op mask payload)

    decoded :
        decode_frame p.max_payload_size (client_frame fin op mask payload ++ rest)
        ≡ one fin op payload (length (client_frame fin op mask payload))
    decoded =
        decode_frame-client_frame p.max_payload_size fin op mask payload rest ok s.mask_bytes
          s.mask_length s.payload_bytes s.payload_within s.payload_wide

-- A frame that is a message of its own: a control frame, or a data frame with the FIN bit.
abbrev pub is_whole : Bool → Opcode → Bool
is_whole fin op = is_control op || (fin && not (is_continuation op))

deliver_whole :
    (p : FrameParser) (fin : Bool) (op : Opcode) (payload : List ℕ)
    → is_whole fin op ≡ true
    → deliver p fin op payload
      ≡ returns p (some (record { opcode = op; fin = true; payload = payload }))
unfolding deliver
deliver_whole p fin op payload w = ground arith

-- A control frame, or an unfragmented data frame, comes out at once with its payload. Only the read
-- position moves, past that frame: a message that is being reassembled is not touched.
pub next_frame_whole :
    (p : FrameParser) (fin : Bool) (op : Opcode) (mask payload rest : List ℕ)
    → p.errored ≡ false
    → IsOpcode op
    → is_whole fin op ≡ true
    → Sendable p.max_payload_size mask payload
    → unread p ≡ client_frame fin op mask payload ++ rest
    → (next_frame p
        ≡ some (
          past p fin op mask payload,
          some (record { opcode = op; fin = true; payload = payload }),
        ))
      × (unread (past p fin op mask payload) ≡ rest)
unfolding next_frame
next_frame_whole p fin op mask payload rest fine ok w s e =
    let (r, left) = round-client_frame p fin op mask payload rest ok s e in
    (loop_returns (length (unread p)) p _ _ fine (r ∙ deliver_whole _ fin op payload w), left)

-- The continuation frames of a message, each with a mask of its own, the last with the FIN bit.
pub continuations : List (List ℕ × List ℕ) → List ℕ → List ℕ → List ℕ
continuations [] mask last = client_frame true continuation mask last
continuations ((own, x) ∷ middle) mask last =
    client_frame false continuation own x ++ continuations middle mask last

abbrev pub joined : List (List ℕ × List ℕ) → List ℕ → List ℕ
joined [] last = last
joined ((own, x) ∷ middle) last = x ++ joined middle last

abbrev pub AllSendable : ℕ → List (List ℕ × List ℕ) → Type 0
AllSendable limit [] = Unit {0}
AllSendable limit ((own, x) ∷ xs) = Sendable limit own x × AllSendable limit xs

-- What `nextFrame` leaves behind a reassembled message.
abbrev pub Delivers : Option (FrameParser × Option Frame) → Opcode → List ℕ → List ℕ → Type 0
Delivers result op payload rest =
    (q : FrameParser) × (result
      ≡ some (q, some (record { opcode = op; fin = true; payload = payload })))
    × (unread q ≡ rest)
    × (q.errored ≡ false)
    × (q.assembling ≡ false)

deliver_middle :
    (p : FrameParser) (payload : List ℕ)
    → p.assembling ≡ true
    → length (p.assembly ++ payload) ≤ p.max_payload_size
    → deliver p false continuation payload ≡ again (record p { assembly = p.assembly ++ payload })
unfolding deliver
deliver_middle p payload a l = ground arith

deliver_last :
    (p : FrameParser) (payload : List ℕ)
    → p.assembling ≡ true
    → length (p.assembly ++ payload) ≤ p.max_payload_size
    → deliver p true continuation payload
      ≡ returns
          (record p { assembling = false; assembly = [] })
          (some
            (record { opcode = p.assembly_opcode; fin = true; payload = p.assembly ++ payload }))
unfolding deliver
deliver_last p payload a l = ground arith

loop_continuations :
    (fuel : ℕ) (middle : List (List ℕ × List ℕ)) (p : FrameParser) (mask last rest : List ℕ)
    → p.errored ≡ false
    → p.assembling ≡ true
    → AllSendable p.max_payload_size middle
    → Sendable p.max_payload_size mask last
    → length (p.assembly ++ joined middle last) ≤ p.max_payload_size
    → unread p ≡ continuations middle mask last ++ rest
    → length middle < fuel
    → Delivers (next_frame_loop fuel p) p.assembly_opcode (p.assembly ++ joined middle last) rest
unfolding continuations
loop_continuations zero middle p mask last rest fine a ss s l e h = absurd (omega arith)
loop_continuations (suc fuel) [] p mask last rest fine a ss s l e h =
    let (r, left) = round-client_frame p true continuation mask last rest tt s e in
    let d = deliver_last (past p true continuation mask last) last a l in
    (_, loop_returns fuel p _ _ fine (r ∙ d), left, fine, refl)
loop_continuations (suc fuel) ((own, x) ∷ middle) p mask last rest fine a (sx, ss) s l e h =
    let more = continuations middle mask last ++ rest in
    let e' =
      e
      ∙ append_assoc (client_frame false continuation own x) (continuations middle mask last)
          rest in
    let (r, left) = round-client_frame p false continuation own x more tt sx e' in
    let grown = append_assoc p.assembly x (joined middle last) in
    let d =
      deliver_middle (past p false continuation own x) x a
        (omega (arith, l, ap length grown, length-append (p.assembly ++ x) (joined middle last))) in
    let q = record (past p false continuation own x) { assembly = p.assembly ++ x } in
    let (z, found, left', fine', done) =
      loop_continuations fuel middle q mask last rest fine a ss s
        (omega (arith, l, ap length grown)) left (omega arith) in
    (
      z,
      loop_again fuel p q fine (r ∙ d)
          ∙ found
          ∙ ap
              (λ u. some (z, some (record { opcode = p.assembly_opcode; fin = true; payload = u })))
              grown,
      left',
      fine',
      done,
    )

continuations_long :
    (middle : List (List ℕ × List ℕ)) (mask last : List ℕ)
    → length middle < length (continuations middle mask last)
unfolding continuations client_frame
continuations_long [] mask last = omega arith
continuations_long ((own, x) ∷ middle) mask last = omega (
  arith,
  continuations_long middle mask last,
  length-append (client_frame false continuation own x) (continuations middle mask last),
)

deliver_first :
    (p : FrameParser) (op : Opcode) (payload : List ℕ)
    → is_control op ≡ false
    → is_continuation op ≡ false
    → deliver p false op payload
      ≡ again (record p { assembling = true; assembly_opcode = op; assembly = payload })
unfolding deliver
deliver_first p op payload c k = ground arith

-- A message that a client sends in two or more fragments, each with a mask of its own, comes out as
-- one message, with the first frame's opcode and the payloads joined in order, if the joined payload keeps to the limit;
-- exactly the fragments' bytes are taken, and the parser is ready for the next message.
pub next_frame_fragmented :
    (p : FrameParser) (op : Opcode) (mask first : List ℕ) (middle : List (List ℕ × List ℕ))
    (mask_last last rest : List ℕ)
    → p.errored ≡ false
    → IsOpcode op
    → is_control op ≡ false
    → is_continuation op ≡ false
    → Sendable p.max_payload_size mask first
    → AllSendable p.max_payload_size middle
    → Sendable p.max_payload_size mask_last last
    → length (first ++ joined middle last) ≤ p.max_payload_size
    → unread p ≡ client_frame false op mask first ++ (continuations middle mask_last last ++ rest)
    → Delivers (next_frame p) op (first ++ joined middle last) rest
unfolding next_frame
next_frame_fragmented p op mask first middle mask_last last rest fine ok c k sf ss s l e =
    let n = length (unread p) in
    let (r, left) = round-client_frame p false op mask first _ ok sf e in
    let d = deliver_first (past p false op mask first) op first c k in
    let q = record (past p false op mask first) {
      assembling = true;
      assembly_opcode = op;
      assembly = first;
    } in
    let room : length middle < n = omega (
      arith,
      ap length e,
      length-append (client_frame false op mask first)
          (continuations middle mask_last last ++ rest),
      length-append (continuations middle mask_last last) rest,
      continuations_long middle mask_last last,
    ) in
    let (z, found, left', fine', done) =
      loop_continuations n middle q mask_last last rest fine refl ss s l left room in
    (z, loop_again n p q fine (r ∙ d) ∙ found, left', fine', done)
