-- ===== src/Engine/Numbering.antt =====
-- Broadcasts as a receiver sees them: packets in a row.
use phonepostmix.Base.{ℕ, ◌+◌, ◌%◌, ◌^◌, ◌≡◌, refl, true, List, [], ◌∷◌, ◌++◌, length}
use phonepostmix.Wire.{PacketInfo, packet_size, read_header}
use phonepostmix.Engine.{Broadcast, packet, session}

-- A packet that every receiver takes: its header reads back, whatever the receiver held before, the
-- sequence number is `n`, and the length is what the header promises.
abbrev pub Reads : ℕ → List ℕ → Type 0
Reads n bytes =
    (old : PacketInfo)
    → (info : PacketInfo) × (read_header bytes old ≡ (true, info))
      × (info.sequence ≡ n)
      × (length bytes ≡ packet_size info)

-- The packets among the broadcasts are good, and numbered from `n` on.
unfoldable pub Numbered : ℕ → List Broadcast → Type 0
Numbered n [] = Unit {0}
Numbered n (session s ∷ sent) = Numbered n sent
Numbered n (packet bytes ∷ sent) = Reads n bytes × Numbered ((n + 1) % 2 ^ 32) sent

-- The number behind those of the broadcasts.
unfoldable pub number_after : ℕ → List Broadcast → ℕ
number_after n [] = n
number_after n (session s ∷ sent) = number_after n sent
number_after n (packet bytes ∷ sent) = number_after ((n + 1) % 2 ^ 32) sent

pub Numbered-append :
    (n : ℕ) (xs ys : List Broadcast)
    → Numbered n xs
    → Numbered (number_after n xs) ys
    → Numbered n (xs ++ ys)
unfolding Numbered number_after
Numbered-append n [] ys h k = k
Numbered-append n (session s ∷ xs) ys h k = Numbered-append n xs ys h k
Numbered-append n (packet bytes ∷ xs) ys (r, h) k =
    (r, Numbered-append ((n + 1) % 2 ^ 32) xs ys h k)

pub number_after-append :
    (n : ℕ) (xs ys : List Broadcast)
    → number_after n (xs ++ ys) ≡ number_after (number_after n xs) ys
unfolding number_after
number_after-append n [] ys = refl
number_after-append n (session s ∷ xs) ys = number_after-append n xs ys
number_after-append n (packet bytes ∷ xs) ys = number_after-append ((n + 1) % 2 ^ 32) xs ys
