-- ===== src/WebSocket/Tests.antt =====
-- The WebSocket frames at concrete bytes.
use phonepostmix.Base.{ℕ, ◌≡◌, refl, arith, true, false, Option, some, List, [], ◌∷◌, ◌++◌}
use phonepostmix.WebSocket.{
  unmask, text, nibble_of_opcode, Frame, FrameParser, new_parser, unread, write_frame, next_frame,
  push, compact,
}
use phonepostmix.WebSocket.Splits.{moved}
use phonepostmix.WebSocket.Streams.{Yields}
use phonepostmix.WebSocket.Pushes.{pushes_split}
use phonepostmix.Http.{bytes}
use phonepostmix.Sha1.{process_block}
use phonepostmix.Wire.{copy_bytes}
use phonepostmix.WebSocket.Accept.{make_accept_key}
use phonepostmix.WebSocket.Sizes.{size_bytes}
use phonepostmix.WebSocket.Frames.{client_frame}
use phonepostmix.WebSocket.Parser.{IsValid, Keeps, new_parser-IsValid, next_frame-Keeps}
use phonepostmix.WebSocket.Messages.{Sendable, Delivers, continuations, next_frame_fragmented}

-- RFC 6455 §5.7: a masked "Hello".
abbrev mask : List ℕ
mask = 0x37 ∷ 0xfa ∷ 0x21 ∷ 0x3d ∷ []

abbrev hello : List ℕ
hello = 0x48 ∷ 0x65 ∷ 0x6c ∷ 0x6c ∷ 0x6f ∷ []

abbrev masked_hello : List ℕ
masked_hello = 0x81 ∷ 0x85 ∷ 0x37 ∷ 0xfa ∷ 0x21 ∷ 0x3d ∷ 0x7f ∷ 0x9f ∷ 0x4d ∷ 0x51 ∷ 0x58 ∷ []

rfc_hello : client_frame true text mask hello ≡ masked_hello
unfolding client_frame size_bytes nibble_of_opcode unmask
rfc_hello = refl

server_hello : write_frame [] text hello ≡ 0x81 ∷ 0x05 ∷ hello
unfolding write_frame
server_hello = refl

abbrev holding : List ℕ → FrameParser
holding bytes = record (new_parser 64) { incoming = bytes }

hello-Sendable : Sendable 64 mask hello
hello-Sendable = omega arith

second-Sendable : Sendable 64 (1 ∷ 2 ∷ 3 ∷ 4 ∷ []) hello
second-Sendable = omega arith

third-Sendable : Sendable 64 (0xff ∷ 0 ∷ 0x80 ∷ 7 ∷ []) hello
third-Sendable = omega arith

-- Three fragments with three masks.
abbrev second_mask : List ℕ
second_mask = 1 ∷ 2 ∷ 3 ∷ 4 ∷ []

abbrev third_mask : List ℕ
third_mask = 0xff ∷ 0 ∷ 0x80 ∷ 7 ∷ []

abbrev in_three : FrameParser
in_three = holding (
    client_frame false text mask hello
    ++ (continuations ((second_mask, hello) ∷ []) third_mask hello ++ 9 ∷ []))

in_three-IsValid : IsValid in_three
unfolding new_parser client_frame
in_three-IsValid = record {
  in_bounds = omega arith;
  bounded = λ e. omega arith;
  bounded_errored = omega arith;
  idle = λ e. refl;
}

next_frame-Keeps_example :
    (q : FrameParser) × (r : Option Frame) × (next_frame in_three ≡ some (q, r))
    × Keeps in_three q r
next_frame-Keeps_example = next_frame-Keeps in_three in_three-IsValid

next_frame_fragmented_example :
    Delivers (next_frame in_three) text (hello ++ hello ++ hello) (9 ∷ [])
unfolding new_parser nibble_of_opcode
next_frame_fragmented_example =
    next_frame_fragmented in_three text mask hello ((second_mask, hello) ∷ []) third_mask hello
      (9 ∷ []) refl tt refl refl hello-Sendable (second-Sendable, tt) third-Sendable (omega arith)
      refl

abbrev hello_frame : Frame
hello_frame = record { opcode = text; fin = true; payload = hello }

-- The first four bytes of a frame, and the rest with one byte of the next.
abbrev first_piece : List ℕ
first_piece = 0x81 ∷ 0x85 ∷ 0x37 ∷ 0xfa ∷ []

abbrev second_piece : List ℕ
second_piece = 0x21 ∷ 0x3d ∷ 0x7f ∷ 0x9f ∷ 0x4d ∷ 0x51 ∷ 0x58 ∷ 9 ∷ []

abbrev waiting : FrameParser
waiting = push (new_parser 64) first_piece

abbrev behind_hello : FrameParser
behind_hello = record (holding (masked_hello ++ 9 ∷ [])) { consumed = 11 }

first_piece-Yields : Yields waiting [] waiting
unfolding Yields next_frame push compact new_parser
first_piece-Yields = refl

second_piece-Yields : Yields (push waiting second_piece) (hello_frame ∷ []) behind_hello
unfolding Yields next_frame push compact new_parser
second_piece-Yields = (behind_hello, refl, refl)

pushes_split_example :
    (s : FrameParser) × Yields
      (push (new_parser 64) (first_piece ++ second_piece))
      (hello_frame ∷ [])
      s
    × (s ≡ moved s.incoming s.consumed behind_hello)
    × (behind_hello.errored ≡ false → unread s ≡ unread behind_hello)
pushes_split_example =
    pushes_split (new_parser 64) waiting behind_hello first_piece second_piece [] (hello_frame ∷ [])
      (new_parser-IsValid 64) first_piece-Yields second_piece-Yields

-- RFC 6455 §1.3, before the encoding.
rfc_accept :
    make_accept_key (λ x. x) (bytes "dGhlIHNhbXBsZSBub25jZQ==")
    ≡ 0xb3 ∷ 0x7a ∷ 0x4f ∷ 0x2c ∷ 0xc0 ∷ 0x62 ∷ 0x4f ∷ 0x16 ∷ 0x90 ∷ 0xf6 ∷ 0x46 ∷ 0x06 ∷ 0xcf
      ∷ 0x38 ∷ 0x59 ∷ 0x45 ∷ 0xb2 ∷ 0xbe ∷ 0xc4 ∷ 0xea ∷ []
unfolding make_accept_key process_block copy_bytes
rfc_accept = refl
