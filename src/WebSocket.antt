-- ===== src/WebSocket.antt =====
-- core/WebSocketProtocol.h and core/WebSocketProtocol.cpp: RFC 6455 frames. A std::vector<uint8_t>
-- is a list of numbers below 256, and `incoming.data() + consumed` is the list behind `consumed`.
-- Sizes are below the payload limit where they are added, so size_t does not wrap.
pub mod Accept
pub mod Sizes
pub mod Frames
pub mod Parser
pub mod Prefix
pub mod Splits
pub mod Streams
pub mod Pushes
pub mod Messages
mod Tests
use Prim.Native.String.{String}
use phonepostmix.Base.{
  ℕ, zero, suc, ◌+◌, ◌-◌, ◌*◌, ◌/◌, ◌%◌, ◌^◌, bit_and, bit_or, bit_xor, Bool, true, false, not, ltb,
  leb, ◌==◌, ◌&&◌, if◌then◌else◌, Option, none, some, List, [], ◌∷◌, ◌++◌, length, get_or, take,
  drop,
}

-- `reserved` is a nibble that no enumerator names.
pub data Opcode : Type 0 where
  continuation text binary close ping pong : Opcode
  reserved : ℕ → Opcode

unfoldable pub opcode_of_nibble : ℕ → Opcode
opcode_of_nibble n =
    if n == 0x0
    then continuation
    else if n == 0x1
    then text
    else if n == 0x2
    then binary
    else if n == 0x8
    then close
    else if n == 0x9
    then ping
    else if n == 0xa
    then pong
    else reserved n

unfoldable pub nibble_of_opcode : Opcode → ℕ
nibble_of_opcode continuation = 0x0
nibble_of_opcode text = 0x1
nibble_of_opcode binary = 0x2
nibble_of_opcode close = 0x8
nibble_of_opcode ping = 0x9
nibble_of_opcode pong = 0xa
nibble_of_opcode (reserved n) = n

pub record Frame : Type 0 where
  pub opcode : Opcode
  pub fin : Bool
  pub payload : List ℕ

-- The loop that pushes the eight length bytes back: `rounds` more, `shift` falls by 8.
unfoldable pub push_length : ℕ → List ℕ → ℕ → List ℕ
push_length zero out size = out
push_length (suc rounds) out size =
    push_length rounds (out ++ (size / 2 ^ (rounds * 8) % 256) ∷ []) size

unfoldable pub write_frame : List ℕ → Opcode → List ℕ → List ℕ
unfolding nibble_of_opcode push_length
write_frame out opcode payload =
    let size = length payload in
    let out0 = out ++ bit_or 0x80 (nibble_of_opcode opcode) ∷ [] in
    let short = out0 ++ size ∷ [] in
    let medium = out0 ++ 126 ∷ (size / 2 ^ 8 % 256) ∷ (size % 256) ∷ [] in
    let long = push_length 8 (out0 ++ 127 ∷ []) size in
    (if ltb size 126 then short else if leb size 0xffff then medium else long) ++ payload

unfoldable pub write_text_frame : List ℕ → List ℕ → List ℕ
unfolding write_frame
write_text_frame out t = write_frame out text t

pub record FrameParser : Type 0 where
  pub incoming : List ℕ
  pub consumed : ℕ
  pub max_payload_size : ℕ
  pub assembling : Bool
  pub assembly_opcode : Opcode
  pub assembly : List ℕ
  pub errored : Bool
  pub error_message : String

unfoldable pub new_parser : ℕ → FrameParser
new_parser limit = record {
  incoming = [];
  consumed = 0;
  max_payload_size = limit;
  assembling = false;
  assembly_opcode = binary;
  assembly = [];
  errored = false;
  error_message = "";
}

-- The parsed prefix is dropped when all is parsed, or when it has grown past 4096 bytes.
unfoldable pub compact : FrameParser → FrameParser
compact p =
    if ltb 0 p.consumed && (p.consumed == length p.incoming)
    then record p { incoming = []; consumed = 0 }
    else if ltb 4096 p.consumed
    then record p { incoming = drop p.consumed p.incoming; consumed = 0 }
    else p

unfoldable pub push : FrameParser → List ℕ → FrameParser
push p bytes =
    if p.errored then p else let q = compact p in record q { incoming = q.incoming ++ bytes }

unfoldable pub fail : FrameParser → String → FrameParser
fail p message = record p { errored = true; error_message = message }

-- `payloadSize = (payloadSize << 8) | p[2 + i]`, for the rounds left.
unfoldable pub read_length : ℕ → ℕ → List ℕ → ℕ → ℕ
read_length zero i p size = size
read_length (suc rounds) i p size =
    read_length rounds (suc i) p (bit_or (size * 2 ^ 8 % 2 ^ 64) (get_or p (2 + i) 0))

-- The payload size and the header size so far, or `none` where more bytes are needed.
unfoldable pub extended_size : List ℕ → Option (ℕ × ℕ)
unfolding read_length
extended_size p =
    let size = bit_and (get_or p 1 0) 0x7f in
    let available = length p in
    if size == 126
    then (if ltb available 4 then none else some (bit_or (get_or p 2 0 * 2 ^ 8) (get_or p 3 0), 4))
    else if size == 127
    then (if ltb available 10 then none else some (read_length 8 0 p 0, 10))
    else some (size, 2)

-- payload[i] = body[i] ^ mask[i % 4]
unfoldable pub unmask : List ℕ → ℕ → List ℕ → List ℕ
unmask mask i [] = []
unmask mask i (b ∷ body) = bit_xor b (get_or mask (i % 4) 0) ∷ unmask mask (suc i) body

-- What the unread bytes begin with.
pub data Decoded : Type 0 where
  short : Decoded
  bad : String → Decoded
  one : Bool → Opcode → List ℕ → ℕ → Decoded

-- The last guard and the unmasking, for a header of `header` bytes with its mask.
unfoldable pub decode_body : List ℕ → ℕ → ℕ → Decoded
unfolding unmask opcode_of_nibble
decode_body p size mask_offset =
    let header = mask_offset + 4 in
    if ltb (length p) (header + size)
    then short
    else one (not (bit_and (get_or p 0 0) 0x80 == 0))
        (opcode_of_nibble (bit_and (get_or p 0 0) 0x0f))
        (unmask (take 4 (drop mask_offset p)) 0 (take size (drop header p))) (header + size)

unfoldable pub decode_sized : ℕ → List ℕ → Option (ℕ × ℕ) → Decoded
unfolding decode_body
decode_sized limit p none = short
decode_sized limit p (some (size, header)) =
    if bit_and (get_or p 1 0) 0x80 == 0
    then bad "client sent an unmasked frame"
    else if ltb limit size
    then bad "client frame exceeds the maximum payload size"
    else decode_body p size header

-- The first half of a round of `nextFrame`, up to the unmasked payload.
unfoldable pub decode_frame : ℕ → List ℕ → Decoded
unfolding decode_sized extended_size
decode_frame limit p = if ltb (length p) 2 then short else decode_sized limit p (extended_size p)

-- How a round of the loop ends: by a return, or by going round again.
pub data Round : Type 0 where
  returns : FrameParser → Option Frame → Round
  again : FrameParser → Round

abbrev pub is_control : Opcode → Bool
is_control opcode = not (bit_and (nibble_of_opcode opcode) 0x08 == 0)

abbrev pub is_continuation : Opcode → Bool
is_continuation continuation = true
is_continuation text = false
is_continuation binary = false
is_continuation close = false
is_continuation ping = false
is_continuation pong = false
is_continuation (reserved n) = false

-- A continuation frame. Moving a vector out leaves it empty.
unfoldable pub continue_message : FrameParser → Bool → List ℕ → Round
unfolding fail
continue_message p fin payload =
    let q = record p { assembly = p.assembly ++ payload } in
    if not p.assembling
    then returns (fail p "continuation frame with no message in progress") none
    else if ltb p.max_payload_size (length q.assembly)
    then returns (fail q "reassembled message exceeds the maximum payload size") none
    else if not fin
    then again q
    else returns (record q { assembling = false; assembly = [] })
        (some (record { opcode = p.assembly_opcode; fin = true; payload = q.assembly }))

-- The second half of a round: what a decoded frame does to the reassembly.
unfoldable pub deliver : FrameParser → Bool → Opcode → List ℕ → Round
unfolding continue_message nibble_of_opcode
deliver p fin opcode payload =
    let whole = some (record { opcode = opcode; fin = true; payload = payload }) in
    if is_control opcode
    then returns p whole
    else if is_continuation opcode
    then continue_message p fin payload
    else if fin
    then returns p whole
    else again (record p { assembling = true; assembly_opcode = opcode; assembly = payload })

unfoldable pub round_of : FrameParser → Decoded → Round
unfolding deliver
round_of p short = returns p none
round_of p (bad message) = returns (fail p message) none
round_of p (one fin opcode payload total) =
    deliver (record p { consumed = p.consumed + total }) fin opcode payload

-- The unread bytes.
abbrev pub unread : FrameParser → List ℕ
unread p = drop p.consumed p.incoming

unfoldable pub round : FrameParser → Round
unfolding round_of decode_frame
round p = round_of p (decode_frame p.max_payload_size (unread p))

-- The loop, on fuel; `none` means that the fuel ran out.
unfoldable pub next_frame_loop : ℕ → FrameParser → Option (FrameParser × Option Frame)
next_frame_loop zero p = none
next_frame_loop (suc fuel) p =
    if p.errored
    then some (p, none)
    else elim (round p) [ returns q r ↦ some (q, r) | again q ↦ next_frame_loop fuel q ]

-- Each round that goes on takes six bytes at least, so this fuel is enough.
unfoldable pub next_frame : FrameParser → Option (FrameParser × Option Frame)
unfolding next_frame_loop round
next_frame p = next_frame_loop (suc (length (unread p))) p
