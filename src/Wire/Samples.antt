-- ===== src/Wire/Samples.antt =====
-- `writeSamples`: where the bytes go.
use phonepostmix.Base.{
  sym, ℕ, zero, suc, ◌+◌, ◌*◌, ◌/◌, ◌%◌, ◌^◌, ◌≤◌, ◌≡◌, refl, ap, ◌∙◌, false, arith, List, [], ◌∷◌,
  ◌++◌, length, length-append, append_assoc, drop, drop-drop, length-drop, set,
}
use phonepostmix.Base.Int.{Within}
use phonepostmix.Wire.{
  Format, pcm16, pcm24, float32, other, bytes_per_sample, FloatOps, sample16, sample24,
  write_sample, write_samples_from, write_samples, write_le_from, write_little_endian,
}

-- What the language documents of float: the order at the constants, and that a number of [-1, 1]
-- times 32767 (or 8388607) rounds into the range of that scale.
pub record FloatLaws (F : FloatOps) : Type 0 where
  pub minus_one_lt : F.ltf F.minus_one F.minus_one ≡ false
  pub one_lt_minus_one : F.ltf F.one F.minus_one ≡ false
  pub one_lt : F.ltf F.one F.one ≡ false
  pub minus_one_nan : F.is_nan F.minus_one ≡ false
  pub one_nan : F.is_nan F.one ≡ false
  pub range16 :
      (x : F.Float)
      → F.is_nan x ≡ false
      → F.ltf x F.minus_one ≡ false
      → F.ltf F.one x ≡ false
      → Within 32767 (F.scale16 x)
  pub range24 :
      (x : F.Float)
      → F.is_nan x ≡ false
      → F.ltf x F.minus_one ≡ false
      → F.ltf F.one x ≡ false
      → Within 8388607 (F.scale24 x)

set-append_right :
    (pre ys : List ℕ) (off k v : ℕ)
    → off ≡ length pre + k
    → set (pre ++ ys) off v ≡ pre ++ set ys k v
set-append_right [] ys off k v h = ap (λ o. set ys o v) (omega arith)
set-append_right (x ∷ pre) ys zero k v h = absurd (omega arith)
set-append_right (x ∷ pre) ys (suc off) k v h =
    ap (◌∷◌ x) (set-append_right pre ys off k v (omega arith))

write_le_from-append :
    (n i : ℕ) (pre ys : List ℕ) (off v : ℕ)
    → off ≡ length pre
    → write_le_from n i (pre ++ ys) off v ≡ pre ++ write_le_from n i ys 0 v
unfolding write_le_from
write_le_from-append zero i pre ys off v h = refl
write_le_from-append (suc n) i pre ys off v h =
    rw (set-append_right pre ys (off + i) (0 + i) (v / 2 ^ (i * 8) % 256) (omega arith))
      (write_le_from-append n (suc i) pre _ off v h)

tail16 :
    (v : ℕ) (zs : List ℕ)
    → 2 ≤ length zs
    → write_little_endian 2 zs 0 v ≡ (v % 256) ∷ (v / 256 % 256) ∷ drop 2 zs
unfolding write_little_endian
tail16 v [] l = absurd (omega arith)
tail16 v (a ∷ []) l = absurd (omega arith)
tail16 v (a ∷ b ∷ zs) l = ground arith

tail32 :
    (v : ℕ) (zs : List ℕ)
    → 4 ≤ length zs
    → write_little_endian 4 zs 0 v
      ≡ (v % 256) ∷ (v / 256 % 256) ∷ (v / 65536 % 256) ∷ (v / 16777216 % 256) ∷ drop 4 zs
unfolding write_little_endian
tail32 v [] l = absurd (omega arith)
tail32 v (a ∷ []) l = absurd (omega arith)
tail32 v (a ∷ b ∷ []) l = absurd (omega arith)
tail32 v (a ∷ b ∷ c ∷ []) l = absurd (omega arith)
tail32 v (a ∷ b ∷ c ∷ d ∷ zs) l = ground arith

tail24 :
    (x y z : ℕ) (zs : List ℕ)
    → 3 ≤ length zs
    → set (set (set zs 0 x) 1 y) 2 z ≡ x ∷ y ∷ z ∷ drop 3 zs
tail24 x y z [] l = absurd (omega arith)
tail24 x y z (a ∷ []) l = absurd (omega arith)
tail24 x y z (a ∷ b ∷ []) l = absurd (omega arith)
tail24 x y z (a ∷ b ∷ c ∷ zs) l = refl

-- The named formats: the others write nothing.
abbrev pub IsNamed : Format → Type 0
IsNamed (other n) = ⊥
IsNamed pcm16 = Unit {0}
IsNamed pcm24 = Unit {0}
IsNamed float32 = Unit {0}

module _ (F : FloatOps) where
  open F use {Float, bits}

  -- The bytes of one sample, lowest first.
  unfoldable pub sample_bytes : Format → Float → List ℕ
  sample_bytes pcm16 x = (sample16 F x % 256) ∷ (sample16 F x / 256 % 256) ∷ []
  sample_bytes pcm24 x =
      (sample24 F x % 256) ∷ (sample24 F x / 256 % 256) ∷ (sample24 F x / 65536 % 256) ∷ []
  sample_bytes float32 x =
      (bits x % 256)
      ∷ (bits x / 256 % 256)
      ∷ (bits x / 65536 % 256)
      ∷ (bits x / 16777216 % 256)
      ∷ []
  sample_bytes (other n) x = []

  unfoldable pub encode : Format → List Float → List ℕ
  encode f [] = []
  encode f (x ∷ xs) = sample_bytes f x ++ encode f xs

  pub encode-append :
      (f : Format) (xs ys : List Float) → encode f (xs ++ ys) ≡ encode f xs ++ encode f ys
  unfolding encode
  encode-append f [] ys = refl
  encode-append f (x ∷ xs) ys =
      ap (◌++◌ (sample_bytes f x)) (encode-append f xs ys)
      ∙ sym (append_assoc (sample_bytes f x) (encode f xs) (encode f ys))

  write_sample_lem :
      (f : Format) (pre ys : List ℕ) (off : ℕ) (x : Float)
      → IsNamed f
      → off ≡ length pre
      → bytes_per_sample f ≤ length ys
      → write_sample F f (pre ++ ys) off x
        ≡ pre ++ (sample_bytes f x ++ drop (bytes_per_sample f) ys)
  unfolding write_sample sample_bytes bytes_per_sample
  write_sample_lem pcm16 pre ys off x named h l =
      unfold write_little_endian in
      (write_le_from-append 2 0 pre ys off _ h ∙ ap (◌++◌ pre) (tail16 _ ys l))
  write_sample_lem pcm24 pre ys off x named h l =
      rw
        (
          set-append_right pre ys off 0 (sample24 F x % 256) (omega arith),
          set-append_right pre (set ys 0 (sample24 F x % 256)) (off + 1) 1
              (sample24 F x / 2 ^ 8 % 256) (omega arith),
          set-append_right pre _ (off + 2) 2 (sample24 F x / 2 ^ 16 % 256) (omega arith),
        )
        (ap (◌++◌ pre) (tail24 _ _ _ ys l))
  write_sample_lem float32 pre ys off x named h l =
      unfold write_little_endian in
      (write_le_from-append 4 0 pre ys off _ h ∙ ap (◌++◌ pre) (tail32 _ ys l))
  write_sample_lem (other n) pre ys off x named h l = elim named [ ]

  length-sample_bytes :
      (f : Format) (x : Float) → IsNamed f → length (sample_bytes f x) ≡ bytes_per_sample f
  unfolding sample_bytes bytes_per_sample
  length-sample_bytes pcm16 x named = refl
  length-sample_bytes pcm24 x named = refl
  length-sample_bytes float32 x named = refl
  length-sample_bytes (other n) x named = elim named [ ]

  pub length-encode :
      (f : Format) (xs : List Float)
      → IsNamed f
      → length (encode f xs) ≡ length xs * bytes_per_sample f
  unfolding encode
  length-encode f [] named = omega arith
  length-encode f (x ∷ xs) named =
      rw
        (
          length-append (sample_bytes f x) (encode f xs),
          length-sample_bytes f x named,
          length-encode f xs named,
        )
        (grind arith)

  write_samples_from_lem :
      (f : Format) (xs : List Float) (pre ys : List ℕ) (base i : ℕ)
      → IsNamed f
      → base + i * bytes_per_sample f ≡ length pre
      → length (encode f xs) ≤ length ys
      → write_samples_from F f (pre ++ ys) base i xs
        ≡ pre ++ (encode f xs ++ drop (length (encode f xs)) ys)
  unfolding write_samples_from encode
  write_samples_from_lem f [] pre ys base i named h l = refl
  write_samples_from_lem f (x ∷ xs) pre ys base i named h l =
      let w = bytes_per_sample f in
      let s = sample_bytes f x in
      let e = encode f xs in
      let ls = length-sample_bytes f x named in
      let le = length-append s e in
      rw
        (
          write_sample_lem f pre ys (base + i * w) x named h (omega arith),
          ← append_assoc pre s (drop w ys),
        )
        (write_samples_from_lem f xs (pre ++ s) (drop w ys) base (suc i) named
            (grind (arith, length-append pre s)) (omega (arith, length-drop w ys))
          ∙ rw (le, ls, drop-drop (length e) w ys, append_assoc pre s, append_assoc s e))

  -- Where the buffer has room from `base` on, `writeSamples` changes exactly the bytes of the
  -- samples: what stands before `base` and behind the last sample is kept, and between them
  -- stand the samples' bytes in order, for each of the three formats.
  pub write_samples_lem :
      (f : Format) (xs : List Float) (pre ys : List ℕ)
      → IsNamed f
      → length xs * bytes_per_sample f ≤ length ys
      → write_samples F (pre ++ ys) (length pre) xs f
        ≡ pre ++ (encode f xs ++ drop (length xs * bytes_per_sample f) ys)
  unfolding write_samples
  write_samples_lem f xs pre ys named l = rw (← length-encode f xs named) (
      write_samples_from_lem f xs pre ys (length pre) 0 named (omega arith)
        (omega (arith, length-encode f xs named)))
