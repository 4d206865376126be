-- ===== src/Sha1/Tests.antt =====
-- SHA-1 at FIPS 180-4's first example.
use phonepostmix.Base.{ℕ, ◌+◌, ◌%◌, ◌<◌, ◌≡◌, refl, arith, List, [], ◌∷◌, ◌++◌, replicate}
use phonepostmix.Sha1.{new_sha1, update, hash, process_block, digest, big_endian}
use phonepostmix.Sha1.Stream.{update-append}
use phonepostmix.Sha1.Padding.{hash_lem}
use phonepostmix.Wire.{copy_bytes}

hash_abc :
    hash (0x61 ∷ 0x62 ∷ 0x63 ∷ [])
    ≡ 0xa9 ∷ 0x99 ∷ 0x3e ∷ 0x36 ∷ 0x47 ∷ 0x06 ∷ 0x81 ∷ 0x6a ∷ 0xba ∷ 0x3e ∷ 0x25 ∷ 0x71 ∷ 0x78
      ∷ 0x50 ∷ 0xc2 ∷ 0x6c ∷ 0x9c ∷ 0xd0 ∷ 0xd8 ∷ 0x9d ∷ []
unfolding hash process_block copy_bytes
hash_abc = refl

abbrev abc : List ℕ
abc = 0x61 ∷ 0x62 ∷ 0x63 ∷ []

hash_lem_example :
    (k : ℕ) × (k < 64)
    × ((3 + 1 + k + 8) % 64 ≡ 0)
    × (hash abc ≡ digest (update new_sha1 (abc ++ 0x80 ∷ (replicate k 0 ++ big_endian 8 24))).state)
hash_lem_example = hash_lem abc

update-append_example :
    update (update new_sha1 abc) (replicate 70 7) ≡ update new_sha1 (abc ++ replicate 70 7)
update-append_example = update-append new_sha1 abc (replicate 70 7) (omega arith)
