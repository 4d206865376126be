-- ===== src/Qr/Pixels.antt =====
-- What the QR code component's image shows, pixel by pixel.
use phonepostmix.Base.{
  ℕ, zero, suc, ◌+◌, ◌≤◌, ◌<◌, ◌==◌, ◌≡◌, ◌≢◌, refl, sym, ap, ◌∙◌, subst, arith, true, false, ltb,
  leb, bytes_eq, bytes_eq→eq, bytes_eq_refl, ◌&&◌, ◌⊎◌, if_intro, if◌then◌else◌, none, some, List,
  [],
}
use phonepostmix.Qr.{
  Colour, black, white, QrOps, ImageOps, QrCode, new_qr_code, pixel, draw_row, draw_rows, drawn,
  rebuild_image, set_text,
}

-- The documented behaviour of juce::Image.
pub record ImageLaws (I : ImageOps) : Type 0 where
  pub no_image_lem : I.is_valid I.no_image ≡ false
  pub new_image_lem :
      (w h : ℕ)
      → 0 < w
      → 0 < h
      → (I.is_valid (I.new_image w h) ≡ true)
        × (I.width (I.new_image w h) ≡ w)
        × (I.height (I.new_image w h) ≡ h)
  pub set_keeps :
      (image : I.Image) (x y : ℕ) (c : Colour)
      → (I.is_valid (I.set_pixel_at image x y c) ≡ I.is_valid image)
        × (I.width (I.set_pixel_at image x y c) ≡ I.width image)
        × (I.height (I.set_pixel_at image x y c) ≡ I.height image)
  pub get_set :
      (image : I.Image) (x y i j : ℕ) (c : Colour)
      → x < I.width image
      → y < I.height image
      → I.get_pixel_at (I.set_pixel_at image x y c) i j
        ≡ (if (i == x) && (j == y) then c else I.get_pixel_at image i j)

module _ (Q : QrOps) (I : ImageOps) (laws : ImageLaws I) where
  -- `b` has the form of `a`.
  record SameForm (a b : I.Image) : Type 0 where
    valid : I.is_valid b ≡ I.is_valid a
    wide : I.width b ≡ I.width a
    high : I.height b ≡ I.height a

  SameForm-trans : {a b c : I.Image} → SameForm a b → SameForm b c → SameForm a c
  SameForm-trans f g = record {
    valid = g.valid ∙ f.valid;
    wide = g.wide ∙ f.wide;
    high = g.high ∙ f.high;
  }

  set-SameForm : (a : I.Image) (x y : ℕ) (c : Colour) → SameForm a (I.set_pixel_at a x y c)
  set-SameForm a x y c =
      let (v, w, h) = laws.set_keeps a x y c in record { valid = v; wide = w; high = h }

  draw_row-SameForm :
      (code : Q.Code) (side y count x : ℕ) (a : I.Image)
      → SameForm a (draw_row Q I code side y count x a)
  unfolding draw_row
  draw_row-SameForm code side y zero x a = record { valid = refl; wide = refl; high = refl }
  draw_row-SameForm code side y (suc count) x a =
      SameForm-trans (set-SameForm a x y (pixel Q I code side x y)) (
        draw_row-SameForm code side y count (suc x)
          (I.set_pixel_at a x y (pixel Q I code side x y)))

  draw_row-pixel :
      (code : Q.Code) (side y count x : ℕ) (a : I.Image) (i j : ℕ)
      → x + count ≤ I.width a
      → y < I.height a
      → I.get_pixel_at (draw_row Q I code side y count x a) i j ≡ (
          if (j == y) && (leb x i && ltb i (x + count))
          then pixel Q I code side i j
          else I.get_pixel_at a i j)
  unfolding draw_row
  draw_row-pixel code side y zero x a i j w h = ground arith
  draw_row-pixel code side y (suc count) x a i j w h =
      let f = set-SameForm a x y (pixel Q I code side x y) in
      draw_row-pixel code side y count (suc x) (I.set_pixel_at a x y (pixel Q I code side x y)) i j
        (omega (arith, w, f.wide)) (omega (arith, h, f.high))
      ∙ ground (
        arith,
        laws.get_set a x y i j (pixel Q I code side x y) (omega (arith, w)) h,
        ap (λ k. pixel Q I code side k j) {x = i} {y = x},
        ap (λ k. pixel Q I code side x k) {x = j} {y = y},
      )

  draw_rows-SameForm :
      (code : Q.Code) (side count y : ℕ) (a : I.Image)
      → SameForm a (draw_rows Q I code side count y a)
  unfolding draw_rows
  draw_rows-SameForm code side zero y a = record { valid = refl; wide = refl; high = refl }
  draw_rows-SameForm code side (suc count) y a =
      SameForm-trans (draw_row-SameForm code side y side 0 a)
        (draw_rows-SameForm code side count (suc y) (draw_row Q I code side y side 0 a))

  draw_rows-pixel :
      (code : Q.Code) (side count y : ℕ) (a : I.Image) (i j : ℕ)
      → I.width a ≡ side
      → y + count ≤ I.height a
      → i < side
      → I.get_pixel_at (draw_rows Q I code side count y a) i j
        ≡ (if leb y j && ltb j (y + count) then pixel Q I code side i j else I.get_pixel_at a i j)
  unfolding draw_rows
  draw_rows-pixel code side zero y a i j w h l = ground arith
  draw_rows-pixel code side (suc count) y a i j w h l =
      let f = draw_row-SameForm code side y side 0 a in
      draw_rows-pixel code side count (suc y) (draw_row Q I code side y side 0 a) i j (f.wide ∙ w)
        (omega (arith, h, f.high)) l
      ∙ ground
          (arith, draw_row-pixel code side y side 0 a i j (omega (arith, w)) (omega (arith, h)))

  -- The image of the code, with a white zone of four pixels on each side.
  pub record Pictures (code : Q.Code) (a : I.Image) : Type 0 where
    pub valid : I.is_valid a ≡ true
    pub wide : I.width a ≡ Q.get_size code + 8
    pub high : I.height a ≡ Q.get_size code + 8
    pub modules :
        (i j : ℕ)
        → i < Q.get_size code
        → j < Q.get_size code
        → I.get_pixel_at a (4 + i) (4 + j) ≡ (if Q.get_module code i j then black else white)
    pub quiet :
        (x y : ℕ)
        → x < Q.get_size code + 8
        → y < Q.get_size code + 8
        → (x < 4) ⊎ (y < 4) ⊎ (Q.get_size code + 4 ≤ x) ⊎ (Q.get_size code + 4 ≤ y)
        → I.get_pixel_at a x y ≡ white

  -- What the image shows of a text: nothing where it is empty or does not fit in a code.
  abbrev pub Shows : List ℕ → I.Image → Type 0
  Shows text a =
      (text ≡ [] → I.is_valid a ≡ false)
      × (text ≢ [] → Q.encode_text text ≡ none → I.is_valid a ≡ false)
      × ((code : Q.Code) → text ≢ [] → Q.encode_text text ≡ some code → Pictures code a)

  pixel-module :
      (code : Q.Code) (i j : ℕ)
      → i < Q.get_size code
      → j < Q.get_size code
      → pixel Q I code (Q.get_size code + 8) (4 + i) (4 + j)
        ≡ (if Q.get_module code i j then black else white)
  unfolding pixel
  pixel-module code i j h k = ground arith

  pixel-quiet :
      (code : Q.Code) (x y : ℕ)
      → (x < 4) ⊎ (y < 4) ⊎ (Q.get_size code + 4 ≤ x) ⊎ (Q.get_size code + 4 ≤ y)
      → pixel Q I code (Q.get_size code + 8) x y ≡ white
  unfolding pixel
  pixel-quiet code x y h = ground arith

  drawn-pixel :
      (code : Q.Code) (x y : ℕ)
      → x < Q.get_size code + 8
      → y < Q.get_size code + 8
      → I.get_pixel_at (drawn Q I (some code)) x y ≡ pixel Q I code (Q.get_size code + 8) x y
  unfolding drawn
  drawn-pixel code x y h k =
      let side = Q.get_size code + 8 in
      let (_, w, g) = laws.new_image_lem side side (omega arith) (omega arith) in
      ground
        (arith, draw_rows-pixel code side side 0 (I.new_image side side) x y w (omega (arith, g)) h)

  drawn-Pictures : (code : Q.Code) → Pictures code (drawn Q I (some code))
  unfolding drawn
  drawn-Pictures code =
      let side = Q.get_size code + 8 in
      let (v, w, g) = laws.new_image_lem side side (omega arith) (omega arith) in
      let f = draw_rows-SameForm code side side 0 (I.new_image side side) in
      record {
        valid = f.valid ∙ v;
        wide = f.wide ∙ w;
        high = f.high ∙ g;
        modules = λ i j h k.
            drawn-pixel code (4 + i) (4 + j) (omega (arith, h)) (omega (arith, k))
            ∙ pixel-module code i j h k;
        quiet = λ x y h k q. drawn-pixel code x y h k ∙ pixel-quiet code x y q;
      }

  drawn-Shows : (text : List ℕ) → text ≢ [] → Shows text (drawn Q I (Q.encode_text text))
  unfolding drawn
  drawn-Shows text some_text = (
    λ e. absurd (some_text e),
    λ _ e. ap (λ c. I.is_valid (drawn Q I c)) e ∙ laws.no_image_lem,
    λ code _ e. subst (λ c. Pictures code (drawn Q I c)) (sym e) (drawn-Pictures code),
  )

  rebuild_image-Shows :
      (q : QrCode Q I)
      → ((rebuild_image Q I q).encoded ≡ q.encoded) × Shows q.encoded (rebuild_image Q I q).image
  unfolding rebuild_image
  rebuild_image-Shows q =
      let shown = λ (r : QrCode Q I). (r.encoded ≡ q.encoded) × Shows q.encoded r.image in
      if_intro shown (bytes_eq q.encoded [])
        (λ e. (
          refl,
          (
            λ _. laws.no_image_lem,
            λ some_text _. absurd (some_text (bytes_eq→eq q.encoded [] e)),
            λ code some_text _. absurd (some_text (bytes_eq→eq q.encoded [] e)),
          ),
        ))
        (λ e. (refl, drawn-Shows q.encoded (λ k. let same = ap (λ l. bytes_eq l []) k in cc)))

  -- `setText`, on a component whose image shows its text: afterwards it shows the new text. No image
  -- is shown for an empty text, and for one that does not fit in a code, for which the encoder
  -- throws. For any other the image has the code's modules, black where the module is dark, and
  -- four white pixels around them on every side.
  pub set_text-Shows :
      (text : List ℕ) (q : QrCode Q I)
      → Shows q.encoded q.image
      → ((set_text Q I text q).encoded ≡ text)
        × Shows text (set_text Q I text q).image
        × (text ≡ q.encoded → set_text Q I text q ≡ q)
  unfolding set_text
  set_text-Shows text q shows =
      let after =
        λ (r : QrCode Q I). (r.encoded ≡ text) × Shows text r.image × (text ≡ q.encoded → r ≡ q) in
      if_intro after (bytes_eq text q.encoded)
        (λ e.
          (let same = sym (bytes_eq→eq text q.encoded e) in
            (same, subst (λ l. Shows l q.image) same shows, λ _. refl)))
        (λ e.
          (let (kept, shown) = rebuild_image-Shows (record q { encoded = text }) in
            (
              kept,
              shown,
              λ k.
                  absurd
                    (let same = ap (bytes_eq text) k ∙ e in let whole = bytes_eq_refl text in cc),
            )))

  pub new_qr_code-Shows : Shows [] (new_qr_code Q I).image
  new_qr_code-Shows = (
    λ _. laws.no_image_lem,
    λ some_text _. absurd (some_text refl),
    λ code some_text _. absurd (some_text refl),
  )
