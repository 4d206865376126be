-- ===== src/Ring/Regions.antt =====
-- Where `copyRegion` writes: exactly the slots of its region, in every channel.
use phonepostmix.Base.{
  ℕ, zero, suc, ◌+◌, ◌-◌, ◌*◌, ◌≤◌, ◌<◌, ◌≡◌, refl, ap, ◌∙◌, ◌⊎◌, inl, inr, arith, min, ltb, leb,
  ◌==◌, ◌&&◌, if◌then◌else◌, List, length, get_or, set, length-set, get_or-set_self, get_or-set_ne,
  Bool-cases,
}
use phonepostmix.Ring.{AudioBuffer, copy_channel, copy_channels, write_region}

pub mul_mono : (a b c : ℕ) → a ≤ b → a * c ≤ b * c
mul_mono a b c h = grind arith

index_order : (n a b c d : ℕ) → c < n → a < b → a * n + c < b * n + d
index_order n a b c d hc h = omega (arith, mul_mono (suc a) b n h)

lt_cases : (a b : ℕ) → (a < b) ⊎ ((a ≡ b) ⊎ (b < a))
lt_cases a b = grind arith

-- An interleaved index belongs to one frame and one channel.
pub index_unique : (n a b c d : ℕ) → c < n → d < n → a * n + c ≡ b * n + d → (a ≡ b) × (c ≡ d)
index_unique n a b c d hc hd e = elim (lt_cases a b) [
  | inl lt ↦ absurd (omega (arith, index_order n a b c d hc lt))
  | inr (inl eq) ↦ (eq, omega (arith, ap (λ (t : ℕ). t * n) eq))
  | inr (inr gt) ↦ absurd (omega (arith, index_order n b a d c hd gt))
]

pub index_lt : (n a c total : ℕ) → c < n → a < total → a * n + c < total * n
index_lt n a c total hc ha = omega (arith, mul_mono (suc a) total n ha)

module _ {A : Type 0} where
  -- A write at frame `a` and channel `c`, read at frame `b` and channel `d`.
  get_or-set_index :
      (st : List A) (n total a b c d : ℕ) (v z : A)
      → c < n
      → d < n
      → a < total
      → length st ≡ total * n
      → get_or (set st (a * n + c) v) (b * n + d) z
        ≡ (if (a == b) && (c == d) then v else get_or st (b * n + d) z)
  get_or-set_index st n total a b c d v z hc hd ha l = elim (Bool-cases ((a == b) && (c == d))) [
    | inl same ↦
        let ea : a ≡ b = ground arith in
        let ec : c ≡ d = ground arith in
        rw (same, ← ea, ← ec)
          (get_or-set_self st (a * n + c) v z (omega (arith, index_lt n a c total hc ha)))
    | inr other ↦ rw other (
        get_or-set_ne st (a * n + c) (b * n + d) v z
          (λ e. ground (arith, index_unique n a b c d hc hd e)))
  ]

  length-copy_channel :
      (n i : ℕ) (src : ℕ → A) (channels at : ℕ) (st : List A)
      → length (copy_channel n i src channels at st) ≡ length st
  unfolding copy_channel
  length-copy_channel zero i src channels at st = refl
  length-copy_channel (suc n) i src channels at st =
      length-copy_channel n (suc i) src channels at _ ∙ length-set st (at + i * channels) (src i)

  -- What one channel's loop leaves at frame `b` and channel `d`.
  copy_channel_lem :
      (k i : ℕ) (src : ℕ → A) (n start c at total : ℕ) (st : List A) (b d : ℕ) (z : A)
      → at ≡ start * n + c
      → c < n
      → d < n
      → start + i + k ≤ total
      → length st ≡ total * n
      → get_or (copy_channel k i src n at st) (b * n + d) z ≡ (
          if (c == d) && (leb (start + i) b && ltb b (start + i + k))
          then src (b - start)
          else get_or st (b * n + d) z)
  unfolding copy_channel
  copy_channel_lem zero i src n start c at total st b d z e hc hd h l = ground arith
  copy_channel_lem (suc k) i src n start c at total st b d z e hc hd h l =
      let index : at + i * n ≡ (start + i) * n + c = omega arith in
      let st' = set st ((start + i) * n + c) (src i) in
      rw index (
        copy_channel_lem k (suc i) src n start c at total st' b d z e hc hd (omega arith)
          (length-set st _ (src i) ∙ l)
        ∙ ground
            (arith, get_or-set_index st n total (start + i) b c d (src i) z hc hd (omega arith) l))

  length-copy_channels :
      (k ch : ℕ) (source : AudioBuffer A) (n start block offset : ℕ) (st : List A)
      → length (copy_channels k ch source n start block offset st) ≡ length st
  unfolding copy_channels
  length-copy_channels zero ch source n start block offset st = refl
  length-copy_channels (suc k) ch source n start block offset st =
      length-copy_channels k (suc ch) source n start block offset _
      ∙ length-copy_channel block 0 (λ i. source.sample (min ch (source.channels - 1)) (offset + i))
          n (start * n + ch) st

  copy_channels_lem :
      (k ch : ℕ) (source : AudioBuffer A) (n start block offset total : ℕ) (st : List A) (b d : ℕ)
      (z : A)
      → ch + k ≤ n
      → d < n
      → start + block ≤ total
      → length st ≡ total * n
      → get_or (copy_channels k ch source n start block offset st) (b * n + d) z ≡ (
          if (leb ch d && ltb d (ch + k)) && (leb start b && ltb b (start + block))
          then source.sample (min d (source.channels - 1)) (offset + (b - start))
          else get_or st (b * n + d) z)
  unfolding copy_channels
  copy_channels_lem zero ch source n start block offset total st b d z hc hd h l = ground arith
  copy_channels_lem (suc k) ch source n start block offset total st b d z hc hd h l =
      let src : ℕ → A = λ i. source.sample (min ch (source.channels - 1)) (offset + i) in
      let st' = copy_channel block 0 src n (start * n + ch) st in
      let here =
        copy_channel_lem block 0 src n start ch (start * n + ch) total st b d z refl (omega arith)
          hd (omega arith) l in
      let rest =
        copy_channels_lem k (suc ch) source n start block offset total st' b d z (omega arith) hd h
          (length-copy_channel block 0 src n (start * n + ch) st ∙ l) in
      rest ∙ ground (arith, here)

  pub length-write_region :
      (source : AudioBuffer A) (n start block offset : ℕ) (st : List A)
      → length (write_region source n start block offset st) ≡ length st
  unfolding write_region
  length-write_region source n start block offset st =
      length-copy_channels n 0 source n start block offset st

  -- Inside the region frame `b` holds the source frame that belongs there, in every channel; outside
  -- it nothing changes.
  pub write_region_lem :
      (source : AudioBuffer A) (n start block offset total : ℕ) (st : List A) (b d : ℕ) (z : A)
      → d < n
      → start + block ≤ total
      → length st ≡ total * n
      → get_or (write_region source n start block offset st) (b * n + d) z ≡ (
          if leb start b && ltb b (start + block)
          then source.sample (min d (source.channels - 1)) (offset + (b - start))
          else get_or st (b * n + d) z)
  unfolding write_region
  write_region_lem source n start block offset total st b d z hd h l =
      copy_channels_lem n 0 source n start block offset total st b d z (omega arith) hd h l
      ∙ ground arith
