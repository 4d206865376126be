-- ===== src/WebSocket/Frames.antt =====
-- One frame: what the server writes, and what it decodes of a client's masked frame.
use native.Mathlib.Nat.{zero-add, div-one}
use phonepostmix.Base.{
  ℕ, zero, suc, ◌+◌, ◌/◌, ◌%◌, ◌^◌, ◌≤◌, ◌<◌, ◌≡◌, refl, sym, ap, ◌∙◌, bit_and, arith, ltb, leb,
  List, [], ◌∷◌, ◌++◌, length, length-append, append_assoc, get_or, drop, take-append, drop-append,
  All, Bool, true, false, not, ◌==◌, le→ltb, Bool-cases, inl, inr,
}
use phonepostmix.Base.Bits.{bit_and-low4, bit_and-top, bit_or-top, bit_xor_twice}
use phonepostmix.WebSocket.{
  Opcode, continuation, text, binary, close, ping, pong, reserved, opcode_of_nibble,
  nibble_of_opcode, write_frame, push_length, unmask, one, decode_frame, decode_body,
}
use phonepostmix.WebSocket.Sizes.{size_bytes, extended_size-size_bytes}

abbrev pub IsByte : ℕ → Type 0
IsByte b = b < 256

-- A reserved opcode is a nibble that has no name.
abbrev pub IsOpcode : Opcode → Type 0
IsOpcode (reserved n) = (n < 16) × (opcode_of_nibble n ≡ reserved n)
IsOpcode continuation = Unit {0}
IsOpcode text = Unit {0}
IsOpcode binary = Unit {0}
IsOpcode close = Unit {0}
IsOpcode ping = Unit {0}
IsOpcode pong = Unit {0}

opcode_nibble :
    (op : Opcode)
    → IsOpcode op
    → (opcode_of_nibble (nibble_of_opcode op) ≡ op) × (nibble_of_opcode op < 16)
unfolding opcode_of_nibble nibble_of_opcode
opcode_nibble continuation h = (refl, omega arith)
opcode_nibble text h = (refl, omega arith)
opcode_nibble binary h = (refl, omega arith)
opcode_nibble close h = (refl, omega arith)
opcode_nibble ping h = (refl, omega arith)
opcode_nibble pong h = (refl, omega arith)
opcode_nibble (reserved n) h = (h.1, h.0)

push_length-bytes :
    (out : List ℕ) (n : ℕ)
    → push_length 8 out n
      ≡ out
        ++ (n / 2 ^ 56 % 256)
          ∷ (n / 2 ^ 48 % 256)
          ∷ (n / 2 ^ 40 % 256)
          ∷ (n / 2 ^ 32 % 256)
          ∷ (n / 2 ^ 24 % 256)
          ∷ (n / 2 ^ 16 % 256)
          ∷ (n / 2 ^ 8 % 256)
          ∷ (n / 2 ^ 0 % 256)
          ∷ []
unfolding push_length
push_length-bytes out n = simp append_assoc

-- The server's frame: the FIN bit and the opcode, the size in its shortest form with no mask bit,
-- and the payload as it is, all behind what the buffer held.
pub write_frame-layout :
    (out : List ℕ) (op : Opcode) (payload : List ℕ)
    → IsOpcode op
    → write_frame out op payload
      ≡ out ++ ((128 + nibble_of_opcode op) ∷ (size_bytes 0 (length payload) ++ payload))
unfolding write_frame size_bytes
write_frame-layout out op payload h =
    let n = length payload in
    rw (bit_or-top (nibble_of_opcode op) (omega (arith, (opcode_nibble op h).1)))
      (elim (Bool-cases (ltb n 126)) [
        | inl e ↦ simp (e, append_assoc, zero-add)
        | inr e ↦ elim (Bool-cases (leb n 0xffff)) [
          | inl f ↦ simp (e, f, append_assoc)
          | inr f ↦ simp (e, f, append_assoc, div-one)
        ]
      ])

get_or-IsByte : (xs : List ℕ) (i : ℕ) → All IsByte xs → get_or xs i 0 < 256
get_or-IsByte [] i h = omega arith
get_or-IsByte (x ∷ xs) zero h = h.0
get_or-IsByte (x ∷ xs) (suc i) h = get_or-IsByte xs i h.1

-- Masking is its own inverse, and keeps the length.
pub unmask_twice :
    (mask : List ℕ) (i : ℕ) (body : List ℕ)
    → All IsByte mask
    → All IsByte body
    → unmask mask i (unmask mask i body) ≡ body
unfolding unmask
unmask_twice mask i [] m h = refl
unmask_twice mask i (b ∷ body) m h = cc (
  bit_xor_twice b (get_or mask (i % 4) 0) h.0 (get_or-IsByte mask (i % 4) m),
  unmask_twice mask (suc i) body m h.1,
)

pub length-unmask :
    (mask : List ℕ) (i : ℕ) (body : List ℕ) → length (unmask mask i body) ≡ length body
unfolding unmask
length-unmask mask i [] = refl
length-unmask mask i (b ∷ body) = ap suc (length-unmask mask (suc i) body)

abbrev fin_bit : Bool → ℕ
fin_bit true = 128
fin_bit false = 0

-- RFC 6455 §5.2, from the client's side: the frame that carries `payload` under `mask`.
unfoldable pub client_frame : Bool → Opcode → List ℕ → List ℕ → List ℕ
client_frame fin op mask payload =
    (fin_bit fin + nibble_of_opcode op)
    ∷ (size_bytes 128 (length payload) ++ (mask ++ unmask mask 0 payload))

first_byte :
    (fin : Bool) (n : ℕ)
    → n < 16
    → (not (bit_and (fin_bit fin + n) 0x80 == 0) ≡ fin) × (bit_and (fin_bit fin + n) 0x0f ≡ n)
first_byte true n h = ground (arith, bit_and-top (128 + n), bit_and-low4 (128 + n))
first_byte false n h = ground (arith, bit_and-top (0 + n), bit_and-low4 (0 + n))

masked_bit :
    (n b0 : ℕ) (r : List ℕ)
    → (bit_and (get_or (b0 ∷ (size_bytes 128 n ++ r)) 1 0) 0x80 == 0) ≡ false
unfolding size_bytes
masked_bit n b0 r = ground (arith, bit_and-top (128 + n), bit_and-top 254, bit_and-top 255)

decode_body_lem :
    (pre mask body rest : List ℕ) (size off : ℕ) (p : List ℕ)
    → p ≡ pre ++ (mask ++ (body ++ rest))
    → length mask ≡ 4
    → size ≡ length body
    → off ≡ length pre
    → decode_body p size off
      ≡ one
          (not (bit_and (get_or p 0 0) 0x80 == 0))
          (opcode_of_nibble (bit_and (get_or p 0 0) 0x0f))
          (unmask mask 0 body)
          (off + 4 + size)
unfolding decode_body
decode_body_lem pre mask body rest size off p e m s o =
    let d : drop off p ≡ mask ++ (body ++ rest) = rw e (drop-append pre _ off o) in
    let pm : p ≡ (pre ++ mask) ++ (body ++ rest) = e ∙ sym (append_assoc pre mask _) in
    let d' : drop (off + 4) p ≡ body ++ rest =
      rw pm (drop-append (pre ++ mask) _ (off + 4) (omega (arith, length-append pre mask))) in
    let room : ltb (length p) (off + 4 + size) ≡ false = le→ltb _ _ (
      omega (
        arith,
        ap length pm,
        length-append (pre ++ mask) (body ++ rest),
        length-append pre mask,
        length-append body rest,
      )) in
    rw (room, d, d', take-append mask (body ++ rest) 4 (omega arith), take-append body rest size s)

size_bytes_cases : (n : ℕ) → 1 ≤ length (size_bytes 128 n)
unfolding size_bytes
size_bytes_cases n = ground arith

-- The guards in their order, on a masked header for `n` bytes within the limit.
decode_header :
    (limit n b0 : ℕ) (r : List ℕ)
    → n ≤ limit
    → n < 2 ^ 64
    → decode_frame limit (b0 ∷ (size_bytes 128 n ++ r))
      ≡ decode_body (b0 ∷ (size_bytes 128 n ++ r)) n (suc (length (size_bytes 128 n)))
unfolding decode_frame
decode_header limit n b0 r fits wide =
    let long : ltb (suc (length (size_bytes 128 n ++ r))) 2 ≡ false =
      le→ltb _ _ (omega (arith, length-append (size_bytes 128 n) r, size_bytes_cases n)) in
    rw (long, extended_size-size_bytes n b0 r wide, masked_bit n b0 r, le→ltb limit n fits)

-- A client's frame decodes to its FIN bit, its opcode and its payload, and takes exactly its own
-- bytes, whatever stands behind it.
pub decode_frame-client_frame :
    (limit : ℕ) (fin : Bool) (op : Opcode) (mask payload rest : List ℕ)
    → IsOpcode op
    → All IsByte mask
    → length mask ≡ 4
    → All IsByte payload
    → length payload ≤ limit
    → length payload < 2 ^ 64
    → decode_frame limit (client_frame fin op mask payload ++ rest)
      ≡ one fin op payload (length (client_frame fin op mask payload))
unfolding client_frame
decode_frame-client_frame limit fin op mask payload rest ok mb ml pb fits wide =
    let n = length payload in
    let b0 = fin_bit fin + nibble_of_opcode op in
    let pre = b0 ∷ size_bytes 128 n in
    let body = unmask mask 0 payload in
    let (name, nibble) = opcode_nibble op ok in
    let (top, low) = first_byte fin (nibble_of_opcode op) nibble in
    let size = length-unmask mask 0 payload in
    let regroup : (size_bytes 128 n ++ (mask ++ body)) ++ rest
        ≡ size_bytes 128 n ++ (mask ++ (body ++ rest)) =
      append_assoc (size_bytes 128 n) (mask ++ body) rest
      ∙ ap (◌++◌ (size_bytes 128 n)) (append_assoc mask body rest) in
    rw
      (
        regroup,
        decode_header limit n b0 (mask ++ (body ++ rest)) fits wide,
        decode_body_lem pre mask body rest n (suc (length (size_bytes 128 n))) _ refl ml (sym size)
            refl,
        top,
        low,
        name,
        unmask_twice mask 0 payload mb pb,
      )
      (ap (one fin op payload)
        (omega (arith, length-append (size_bytes 128 n) (mask ++ body), length-append mask body)))
