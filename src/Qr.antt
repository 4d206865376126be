-- ===== src/Qr.antt =====
-- plugin/QrCodeComponent.cpp: the listen URL as a QR code. The encoder of qrcodegen and juce::Image are
-- parameters; `paint` only scales the image.
pub mod Pixels
pub mod Tests
use phonepostmix.Base.{
  ℕ, zero, suc, ◌+◌, ◌-◌, ◌*◌, Bool, true, false, not, ltb, leb, bytes_eq, ◌&&◌, ◌||◌,
  if◌then◌else◌, Option, none, some, List, [],
}

pub data Colour : Type 0 where
  black : Colour
  white : Colour

-- qrcodegen::QrCode with medium error correction; `encode_text` gives `none` where it throws.
pub record QrOps : Type 1 where
  pub Code : Type 0
  pub encode_text : List ℕ → Option Code
  pub get_size : Code → ℕ
  pub get_module : Code → ℕ → ℕ → Bool

-- juce::Image.
pub record ImageOps : Type 1 where
  pub Image : Type 0
  pub no_image : Image
  pub new_image : ℕ → ℕ → Image
  pub is_valid : Image → Bool
  pub width : Image → ℕ
  pub height : Image → ℕ
  pub set_pixel_at : Image → ℕ → ℕ → Colour → Image
  pub get_pixel_at : Image → ℕ → ℕ → Colour

abbrev pub quiet_zone : ℕ
quiet_zone = 4

module _ (Q : QrOps) (I : ImageOps) where
  open Q use {Code}
  open I use {Image}

  pub record QrCode : Type 0 where
    pub encoded : List ℕ
    pub image : Image

  abbrev pub new_qr_code : QrCode
  new_qr_code = record { encoded = []; image = I.no_image }

  unfoldable pub pixel : Code → ℕ → ℕ → ℕ → Colour
  pixel code side x y =
      let in_quiet_zone =
        ltb x quiet_zone
        || ltb y quiet_zone
        || leb (side - quiet_zone) x
        || leb (side - quiet_zone) y in
      let dark = not in_quiet_zone && Q.get_module code (x - quiet_zone) (y - quiet_zone) in
      if dark then black else white

  -- The loop over x, for `count` pixels from `x` on.
  unfoldable pub draw_row : Code → ℕ → ℕ → ℕ → ℕ → Image → Image
  unfolding pixel
  draw_row code side y zero x image = image
  draw_row code side y (suc count) x image =
      draw_row code side y count (suc x) (I.set_pixel_at image x y (pixel code side x y))

  -- The loop over y, for `count` rows from `y` on.
  unfoldable pub draw_rows : Code → ℕ → ℕ → ℕ → Image → Image
  unfolding draw_row
  draw_rows code side zero y image = image
  draw_rows code side (suc count) y image =
      draw_rows code side count (suc y) (draw_row code side y side 0 image)

  -- The `try` block, and its handler.
  unfoldable pub drawn : Option Code → Image
  unfolding draw_rows
  drawn none = I.no_image
  drawn (some code) =
      let side = Q.get_size code + quiet_zone * 2 in
      draw_rows code side side 0 (I.new_image side side)

  unfoldable pub rebuild_image : QrCode → QrCode
  unfolding drawn
  rebuild_image q =
      if bytes_eq q.encoded []
      then record q { image = I.no_image }
      else record q { image = drawn (Q.encode_text q.encoded) }

  unfoldable pub set_text : List ℕ → QrCode → QrCode
  unfolding rebuild_image
  set_text text q =
      if bytes_eq text q.encoded then q else rebuild_image (record q { encoded = text })
