-- ===== src/Qr/Tests.antt =====
-- The QR code's image for a concrete code, on images as functions.
use phonepostmix.Base.{
  ℕ, ◌≡◌, refl, arith, ltb, ◌==◌, ◌&&◌, if◌then◌else◌, none, some, List, [], ◌∷◌, length,
}
use phonepostmix.Qr.{
  Colour, black, white, QrOps, ImageOps, QrCode, new_qr_code, pixel, draw_row, draw_rows, drawn,
  rebuild_image, set_text,
}
use phonepostmix.Qr.Pixels.{ImageLaws, Shows, set_text-Shows, new_qr_code-Shows}

pub record Picture : Type 0 where
  pub width : ℕ
  pub height : ℕ
  pub at : ℕ → ℕ → Colour

abbrev pub put : Picture → ℕ → ℕ → Colour → Picture
put image x y c = record image { at = λ i j. if (i == x) && (j == y) then c else image.at i j }

abbrev pub pictures : ImageOps
pictures = record {
  Image = Picture;
  no_image = record { width = 0; height = 0; at = λ i j. white };
  new_image = λ w h. record { width = w; height = h; at = λ i j. white };
  is_valid = λ image. ltb 0 image.width;
  width = λ image. image.width;
  height = λ image. image.height;
  set_pixel_at = put;
  get_pixel_at = λ image. image.at;
}

pub pictures-ImageLaws : ImageLaws pictures
pictures-ImageLaws = record {
  no_image_lem = refl;
  new_image_lem = λ w h some_width some_height. (ground arith, refl, refl);
  set_keeps = λ image x y c. (refl, refl, refl);
  get_set = λ image x y i j c h k. refl;
}

-- A code of 3 × 3 modules with a dark diagonal, for texts of one or two characters; others do not fit.
abbrev pub diagonal : QrOps
diagonal = record {
  Code = ℕ;
  encode_text = λ text. if ltb (length text) 3 then some 3 else none;
  get_size = λ n. n;
  get_module = λ n x y. x == y;
}

abbrev of_text : List ℕ → QrCode diagonal pictures
of_text text = set_text diagonal pictures text (new_qr_code diagonal pictures)

diagonal_pixels :
    ((of_text (65 ∷ [])).image.width ≡ 11)
    × ((of_text (65 ∷ [])).image.at 3 3 ≡ white)
    × ((of_text (65 ∷ [])).image.at 4 4 ≡ black)
    × ((of_text (65 ∷ [])).image.at 4 5 ≡ white)
    × ((of_text (65 ∷ [])).image.at 6 6 ≡ black)
    × ((of_text (65 ∷ [])).image.at 7 7 ≡ white)
    × ((of_text (65 ∷ 66 ∷ 67 ∷ [])).image.width ≡ 0)
unfolding set_text rebuild_image drawn draw_rows draw_row pixel
diagonal_pixels = (refl, refl, refl, refl, refl, refl, refl)

abbrev letter : List ℕ
letter = 65 ∷ []

set_text-Shows_example :
    ((of_text letter).encoded ≡ letter)
    × Shows diagonal pictures pictures-ImageLaws letter (of_text letter).image
    × (letter ≡ [] → of_text letter ≡ new_qr_code diagonal pictures)
set_text-Shows_example =
    set_text-Shows diagonal pictures pictures-ImageLaws letter (new_qr_code diagonal pictures)
      (new_qr_code-Shows diagonal pictures pictures-ImageLaws)
