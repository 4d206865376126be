-- ===== src/Editor/Layout/Tests.antt =====
-- The layout with rectangles that have a corner, a width and a height.
use phonepostmix.Base.{ℕ, ◌+◌, ◌-◌, ◌*◌, ◌≤◌, min, ◌≡◌, refl, arith, Bool, false, ltb, leb, ◌&&◌}
use phonepostmix.Base.Int.{ℤ, pos, negsuc}
use phonepostmix.Editor.Layout.{
  RectangleOps, RectangleLaws, control_row, qr_row, resized, meter_row, controls, covers, covered,
  resized-covers,
}

record Box : Type 0 where
  x : ℕ
  y : ℕ
  width : ℕ
  height : ℕ

box_contains : Box → ℤ → ℤ → Bool
box_contains r (negsuc i) j = false
box_contains r (pos i) (negsuc j) = false
box_contains r (pos i) (pos j) =
    leb r.x i && (ltb i (r.x + r.width) && (leb r.y j && ltb j (r.y + r.height)))

box_reduced : ℕ → Box → Box
box_reduced n r = record {
  x = r.x + n;
  y = r.y + n;
  width = r.width - 2 * n;
  height = r.height - 2 * n;
}

top : ℕ → Box → Box × Box
top n r =
    let k = min n r.height in
    (record r { height = k }, record r { y = r.y + k; height = r.height - k })

bottom : ℕ → Box → Box × Box
bottom n r =
    let k = min n r.height in
    (record r { y = r.y + (r.height - k); height = k }, record r { height = r.height - k })

left : ℕ → Box → Box × Box
left n r =
    let k = min n r.width in (record r { width = k }, record r { x = r.x + k; width = r.width - k })

abbrev boxes : RectangleOps
boxes = record {
  Rectangle = Box;
  contains = box_contains;
  reduced = box_reduced;
  remove_from_top = top;
  remove_from_bottom = bottom;
  remove_from_left = left;
  with_height = λ n r. record r { height = n };
  moved_down = λ n r. record r { y = r.y + n };
}

reduced_lem : (n : ℕ) (r : Box) (i j : ℤ) → covers boxes i j (box_reduced n r) ≤ covers boxes i j r
unfolding box_contains box_reduced
reduced_lem n r (negsuc i) j = omega arith
reduced_lem n r (pos i) (negsuc j) = omega arith
reduced_lem n r (pos i) (pos j) = ground arith

top_lem :
    (n : ℕ) (r : Box) (i j : ℤ)
    → covers boxes i j (top n r).0 + covers boxes i j (top n r).1 ≡ covers boxes i j r
unfolding box_contains top
top_lem n r (negsuc i) j = refl
top_lem n r (pos i) (negsuc j) = refl
top_lem n r (pos i) (pos j) = ground arith

left_lem :
    (n : ℕ) (r : Box) (i j : ℤ)
    → covers boxes i j (left n r).0 + covers boxes i j (left n r).1 ≡ covers boxes i j r
unfolding box_contains left
left_lem n r (negsuc i) j = refl
left_lem n r (pos i) (negsuc j) = refl
left_lem n r (pos i) (pos j) = ground arith

boxes-RectangleLaws : RectangleLaws boxes
boxes-RectangleLaws = record { reduced_lem = reduced_lem; top_lem = top_lem; left_lem = left_lem }

-- The window's size, as the constructor sets it.
abbrev window : Box
window = record { x = 0; y = 0; width = 520; height = 560 }

port_place :
    (resized boxes window).port_value ≡ record { x = 88; y = 440; width = 414; height = 22 }
unfolding resized control_row qr_row box_reduced top left
port_place = refl

-- The meters are drawn behind the port's row.
meters_cross_port :
    (meter_row boxes 0 window ≡ record { x = 18; y = 434; width = 484; height = 10 })
    × (meter_row boxes 1 window ≡ record { x = 18; y = 448; width = 484; height = 10 })
unfolding meter_row box_reduced top bottom
meters_cross_port = (refl, refl)

abbrev on_port : ℤ
on_port = pos 450

resized-covers_example : covered boxes (pos 100) on_port (controls boxes (resized boxes window)) ≤ 1
unfolding box_contains
resized-covers_example = resized-covers boxes boxes-RectangleLaws (pos 100) on_port window
