-- ===== src/WebSocket/Sizes.antt =====
-- The payload sizes of a frame header.
use native.Mathlib.Nat.{mod-eq_of_lt, pow-le-pow_right}
use phonepostmix.Base.{
  ℕ, zero, suc, ◌+◌, ◌*◌, ◌/◌, ◌%◌, ◌^◌, ◌≤◌, ◌<◌, ◌≡◌, refl, bit_or, arith, ltb, leb,
  if◌then◌else◌, some, List, [], ◌∷◌, ◌++◌, length, get_or,
}
use phonepostmix.Base.Bits.{bit_and-low7}
use phonepostmix.Base.Fields.{shifted-bit_or, pow_byte}
use phonepostmix.WebSocket.{read_length, extended_size}

-- RFC 6455 §5.2: the size byte, with the mask bit `top`, and the extended size, high byte first.
unfoldable pub size_bytes : ℕ → ℕ → List ℕ
size_bytes top n =
    if ltb n 126
    then (top + n) ∷ []
    else if leb n 0xffff
    then (top + 126) ∷ (n / 2 ^ 8 % 256) ∷ (n % 256) ∷ []
    else (top + 127)
      ∷ (n / 2 ^ 56 % 256)
      ∷ (n / 2 ^ 48 % 256)
      ∷ (n / 2 ^ 40 % 256)
      ∷ (n / 2 ^ 32 % 256)
      ∷ (n / 2 ^ 24 % 256)
      ∷ (n / 2 ^ 16 % 256)
      ∷ (n / 2 ^ 8 % 256)
      ∷ (n % 256)
      ∷ []

-- One round of the loop over the eight bytes, where nothing is shifted out.
length_round :
    (k n b : ℕ) → n * 2 ^ 8 < 2 ^ 64 → b < 256 → bit_or (n * 2 ^ 8 % 2 ^ 64) b ≡ n * 2 ^ 8 + b
length_round k n b h l = rw (mod-eq_of_lt h) (shifted-bit_or 8 n b l)

abbrev be_sum : ℕ → ℕ → List ℕ → ℕ → ℕ
be_sum zero i p n = n
be_sum (suc k) i p n = be_sum k (suc i) p (n * 2 ^ 8 + get_or p (2 + i) 0)

abbrev BytesFrom : ℕ → ℕ → List ℕ → Type 0
BytesFrom zero i p = Unit {0}
BytesFrom (suc k) i p = (get_or p (2 + i) 0 < 256) × BytesFrom k (suc i) p

read_length-sum :
    (k i : ℕ) (p : List ℕ) (n : ℕ)
    → BytesFrom k i p
    → i + k ≤ 8
    → n < 2 ^ (i * 8)
    → read_length k i p n ≡ be_sum k i p n
unfolding read_length
read_length-sum zero i p n b h l = refl
read_length-sum (suc k) i p n (b, bs) h l =
    let grow : 2 ^ (suc i * 8) ≤ 2 ^ 64 =
      pow-le-pow_right {n = 2} (omega arith) {i = suc i * 8} {j = 64} (omega arith) in
    rw (length_round k n (get_or p (2 + i) 0) (omega (arith, pow_byte i)) b) (
      read_length-sum k (suc i) p (n * 2 ^ 8 + get_or p (2 + i) 0) bs (omega arith)
        (omega (arith, pow_byte i)))

-- The three forms of the size field.
short_size : (n b0 : ℕ) (r : List ℕ) → n < 126 → extended_size (b0 ∷ (128 + n) ∷ r) ≡ some (n, 2)
unfolding extended_size
short_size n b0 r h = ground (arith, bit_and-low7 (128 + n))

medium_size :
    (n b0 : ℕ) (r : List ℕ)
    → n ≤ 0xffff
    → extended_size (b0 ∷ 254 ∷ (n / 2 ^ 8 % 256) ∷ (n % 256) ∷ r) ≡ some (n, 4)
unfolding extended_size
medium_size n b0 r h = ground (arith, shifted-bit_or 8 (n / 2 ^ 8 % 256) (n % 256))

long_size :
    (n b0 : ℕ) (r : List ℕ)
    → n < 2 ^ 64
    → extended_size (
        b0
        ∷ 255
        ∷ (n / 2 ^ 56 % 256)
        ∷ (n / 2 ^ 48 % 256)
        ∷ (n / 2 ^ 40 % 256)
        ∷ (n / 2 ^ 32 % 256)
        ∷ (n / 2 ^ 24 % 256)
        ∷ (n / 2 ^ 16 % 256)
        ∷ (n / 2 ^ 8 % 256)
        ∷ (n % 256)
        ∷ r)
      ≡ some (n, 10)
unfolding extended_size
long_size n b0 r h =
    let p =
      b0
      ∷ 255
      ∷ (n / 2 ^ 56 % 256)
      ∷ (n / 2 ^ 48 % 256)
      ∷ (n / 2 ^ 40 % 256)
      ∷ (n / 2 ^ 32 % 256)
      ∷ (n / 2 ^ 24 % 256)
      ∷ (n / 2 ^ 16 % 256)
      ∷ (n / 2 ^ 8 % 256)
      ∷ (n % 256)
      ∷ r in
    ground (arith, read_length-sum 8 0 p 0 (omega arith) (omega arith) (omega arith))

-- `nextFrame` reads back the size that the header was given, and finds the header's end.
pub extended_size-size_bytes :
    (n b0 : ℕ) (rest : List ℕ)
    → n < 2 ^ 64
    → extended_size (b0 ∷ (size_bytes 128 n ++ rest)) ≡ some (n, suc (length (size_bytes 128 n)))
unfolding size_bytes
extended_size-size_bytes n b0 rest h =
    ground (arith, short_size n b0 rest, medium_size n b0 rest, long_size n b0 rest)
