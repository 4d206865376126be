-- ===== src/Server/Connection/Incoming.antt =====
-- The specification of `pumpIncoming`: which frames it answers, and how.
pub mod Answer
pub mod Frames
pub mod Pump
use phonepostmix.Base.{
  ℕ, zero, suc, ◌+◌, ◌≤◌, ◌<◌, ◌≡◌, ◌≢◌, ◌⊎◌, inl, inr, refl, sym, ap, ◌∙◌, subst, arith, Bool,
  true, false, not, if◌then◌else◌, Option, none, some, List, [], ◌∷◌, ◌++◌, append-nil,
  append_assoc, length, bytes_eq,
}
use phonepostmix.Server.Queue.{Outgoing, SendQueue, enqueue}
use phonepostmix.Server.Queue.Order.{controls}
use phonepostmix.Server.Socket.{Ready, failed, not_yet, ready}
use phonepostmix.Server.Thread.{Owner, Connection, Effect, received, Thread, ◌>>=◌, return, notify}
use phonepostmix.Server.Connection.{
  arrive, PumpTurn, receive, read_frame, handle_frame, handle_result, answer_frames, pump_incoming,
  others,
}
use phonepostmix.Server.Connection.Draining.{controls-append, enqueue-controls, arrive-controls}
use phonepostmix.WebSocket.{
  Opcode, continuation, text, binary, close, ping, pong, reserved, Frame, FrameParser, push,
  next_frame, unread, write_frame,
}
use phonepostmix.WebSocket.Parser.{IsValid, Keeps, unread_shrinks, next_frame-Keeps, push-unread}

abbrev pub After : Type 0
After = List Effect × Connection × Option Bool

-- The specification of a frame's answer: the listener's call, and the frame for the queue.
unfoldable pub told : Owner → ℕ → Opcode → List ℕ → List Effect
told o id text payload = notify o (received id payload)
told o id continuation payload = []
told o id binary payload = []
told o id close payload = []
told o id ping payload = []
told o id pong payload = []
told o id (reserved n) payload = []

unfoldable pub replies : Opcode → List ℕ → List Outgoing
replies ping payload = record { frame = write_frame [] pong payload; droppable = false } ∷ []
replies continuation payload = []
replies text payload = []
replies binary payload = []
replies close payload = []
replies pong payload = []
replies (reserved n) payload = []

unfoldable pub tells : Owner → ℕ → List Frame → List Effect
tells o id [] = []
tells o id (f ∷ fs) = told o id f.opcode f.payload ++ tells o id fs

-- What comes into the queue while the frames are answered.
unfoldable pub queues : ℕ → (ℕ → List Outgoing) → List Frame → List Outgoing
queues fuel arrivals [] = []
queues zero arrivals (f ∷ fs) = []
queues (suc fuel) arrivals (f ∷ fs) =
    controls (arrivals fuel) ++ replies f.opcode f.payload ++ queues fuel arrivals fs

unfoldable pub is_close : Opcode → Bool
is_close close = true
is_close continuation = false
is_close text = false
is_close binary = false
is_close ping = false
is_close pong = false
is_close (reserved n) = false

-- No close among the frames, and one as the last.
unfoldable pub has_no_close : List Frame → Bool
has_no_close [] = true
has_no_close (f ∷ fs) = if is_close f.opcode then false else has_no_close fs

unfoldable pub ends_in_close : List Frame → Bool
ends_in_close [] = false
ends_in_close (f ∷ fs) =
    if is_close f.opcode then elim fs [ [] ↦ true | _ ∷ _ ↦ false ] else ends_in_close fs

-- The frames are those that `nextFrame` gives one after the other.
unfoldable pub Parses : FrameParser → List Frame → FrameParser → Type 0
Parses p [] q = p ≡ q
Parses p (f ∷ fs) q = (m : FrameParser) × (next_frame p ≡ some (m, some f)) × Parses m fs q

-- Where the parser has no more frames, and where a close has come.
abbrev pub Exhausts : List Frame → FrameParser → After → Type 0
Exhausts fs stop r =
    (has_no_close fs ≡ true)
    × (next_frame stop ≡ some (r.1.parser, none))
    × (r.2 ≡ some (not r.1.parser.errored))

abbrev pub Closes : List Frame → FrameParser → After → Type 0
Closes fs stop r = (ends_in_close fs ≡ true) × (r.1.parser ≡ stop) × (r.2 ≡ some false)

pub record Answers (o : Owner) (fuel : ℕ) (arrivals : ℕ → List Outgoing) (c : Connection)
    (r : After) : Type 0 where
  pub taken : List Frame
  pub stop : FrameParser
  pub parsed : Parses c.parser taken stop
  pub ending : Exhausts taken stop r ⊎ Closes taken stop r
  pub calls : r.0 ≡ tells o c.client_id taken
  pub queued : controls r.1.outgoing.queue ≡ controls c.outgoing.queue ++ queues fuel arrivals taken
  pub valid : IsValid r.1.parser
  pub rest_kept : r.1 ≡ record c { parser = r.1.parser; outgoing = r.1.outgoing }

-- Whether the read fails, and the parser behind it.
abbrev pub is_dead : PumpTurn → Bool
is_dead t = elim t.readiness [ failed ↦ true | not_yet ↦ false | ready ↦ bytes_eq t.chunk [] ]

abbrev pub fed : PumpTurn → FrameParser → FrameParser
fed t p = elim t.readiness [ failed ↦ p | not_yet ↦ p | ready ↦ push p t.chunk ]

-- A call of `pumpIncoming` that is behind its read.
abbrev pub Pumps : Owner → PumpTurn → Connection → After → Type 0
Pumps o t c r =
    let d = record c { parser = fed t c.parser } in
    Answers o (suc (length (unread d.parser))) t.arrivals d r
