-- ===== src/Editor/Layout.antt =====
-- plugin/PluginEditor.cpp: `resized`, and where `paint` draws the meters. juce::Rectangle is a parameter;
-- what is removed from a rectangle comes first, and what stays of it second.
mod Tests
use phonepostmix.Base.{ℕ, ◌+◌, ◌*◌, ◌≤◌, ◌≡◌, arith, Bool, if◌then◌else◌, List, [], ◌∷◌}
use phonepostmix.Base.Int.{ℤ}

pub record RectangleOps : Type 1 where
  pub Rectangle : Type 0
  pub contains : Rectangle → ℤ → ℤ → Bool
  pub reduced : ℕ → Rectangle → Rectangle
  pub remove_from_top : ℕ → Rectangle → Rectangle × Rectangle
  pub remove_from_bottom : ℕ → Rectangle → Rectangle × Rectangle
  pub remove_from_left : ℕ → Rectangle → Rectangle × Rectangle
  pub with_height : ℕ → Rectangle → Rectangle
  -- `r.withY (r.getY() + offset)`.
  pub moved_down : ℕ → Rectangle → Rectangle

module _ (R : RectangleOps) where
  open R use {Rectangle}

  pub record Layout : Type 0 where
    pub start_button : Rectangle
    pub qr_code : Rectangle
    pub url_label : Rectangle
    pub copy_url_button : Rectangle
    pub clients_label : Rectangle
    pub status_label : Rectangle
    pub address_caption : Rectangle
    pub address_box : Rectangle
    pub format_caption : Rectangle
    pub format_box : Rectangle
    pub packet_caption : Rectangle
    pub packet_box : Rectangle
    pub port_caption : Rectangle
    pub port_value : Rectangle

  -- The caption, the control, and what stays.
  unfoldable pub control_row : ℕ → Rectangle → Rectangle × Rectangle × Rectangle
  control_row caption_width bounds =
      let row = R.remove_from_top 26 bounds in
      let cut = R.remove_from_left caption_width row.0 in
      (cut.0, cut.1, (R.remove_from_top 6 row.1).1)

  -- The row with the QR code: the code, the label, the button, and the client list.
  unfoldable pub qr_row : Rectangle → Rectangle × Rectangle × Rectangle × Rectangle
  qr_row row =
      let code = R.remove_from_left 176 row in
      let url = R.remove_from_top 40 (R.remove_from_left 14 code.1).1 in
      let copy = R.remove_from_top 28 url.1 in
      (code.0, url.0, (R.remove_from_left 110 copy.0).0, (R.remove_from_top 8 copy.1).1)

  unfoldable pub resized : Rectangle → Layout
  unfolding control_row qr_row
  resized local_bounds =
      let start =
        R.remove_from_top 46 (R.remove_from_top (34 + 10) (R.reduced 18 local_bounds)).1 in
      let code = R.remove_from_top 176 (R.remove_from_top 12 start.1).1 in
      let top = qr_row code.0 in
      let status = R.remove_from_top 32 (R.remove_from_top 10 code.1).1 in
      let address = control_row 70 (R.remove_from_top 6 status.1).1 in
      let format = control_row 70 address.2 in
      let packet = control_row 70 format.2 in
      let port = R.remove_from_left 70 (R.remove_from_top 22 packet.2).0 in
      record {
        start_button = start.0;
        qr_code = top.0;
        url_label = top.1;
        copy_url_button = top.2;
        clients_label = top.3;
        status_label = status.0;
        address_caption = address.0;
        address_box = address.1;
        format_caption = format.0;
        format_box = format.1;
        packet_caption = packet.0;
        packet_box = packet.1;
        port_caption = port.0;
        port_value = port.1;
      }

  -- Where `paint` draws a channel's meter.
  unfoldable pub meter_row : ℕ → Rectangle → Rectangle
  meter_row channel local_bounds =
      let area =
        (R.remove_from_top 30 (R.remove_from_bottom 108 (R.reduced 18 local_bounds)).0).0 in
      R.moved_down (channel * 14) (R.with_height 10 area)

  abbrev pub controls : Layout → List Rectangle
  controls l =
      l.start_button ∷ l.qr_code ∷ l.url_label ∷ l.copy_url_button ∷ l.clients_label
      ∷ l.status_label ∷ l.address_caption ∷ l.address_box ∷ l.format_caption ∷ l.format_box
      ∷ l.packet_caption ∷ l.packet_box ∷ l.port_caption ∷ l.port_value ∷ []

  abbrev pub covers : ℤ → ℤ → Rectangle → ℕ
  covers x y r = if R.contains r x y then 1 else 0

  -- How many of the rectangles contain the point.
  unfoldable pub covered : ℤ → ℤ → List Rectangle → ℕ
  covered x y [] = 0
  covered x y (r ∷ rs) = covers x y r + covered x y rs

  -- The documented behaviour of juce::Rectangle: a slice and what stays make up the rectangle.
  pub record RectangleLaws : Type 0 where
    pub reduced_lem : (n : ℕ) (r : Rectangle) (x y : ℤ) → covers x y (R.reduced n r) ≤ covers x y r
    pub top_lem :
        (n : ℕ) (r : Rectangle) (x y : ℤ)
        → covers x y (R.remove_from_top n r).0 + covers x y (R.remove_from_top n r).1 ≡ covers x y r
    pub left_lem :
        (n : ℕ) (r : Rectangle) (x y : ℤ)
        → covers x y (R.remove_from_left n r).0 + covers x y (R.remove_from_left n r).1
          ≡ covers x y r

  module _ (laws : RectangleLaws) (x y : ℤ) where
    control_row-covers :
        (width : ℕ) (r : Rectangle)
        → covers x y (control_row width r).0
            + covers x y (control_row width r).1
            + covers x y (control_row width r).2
          ≤ covers x y r
    unfolding control_row
    control_row-covers width r =
        let row = R.remove_from_top 26 r in
        omega
          (arith, laws.top_lem 26 r x y, laws.left_lem width row.0 x y, laws.top_lem 6 row.1 x y)

    qr_row-covers :
        (r : Rectangle)
        → covers x y (qr_row r).0
            + covers x y (qr_row r).1
            + covers x y (qr_row r).2
            + covers x y (qr_row r).3
          ≤ covers x y r
    unfolding qr_row
    qr_row-covers row =
        let code = R.remove_from_left 176 row in
        let gap = R.remove_from_left 14 code.1 in
        let url = R.remove_from_top 40 gap.1 in
        let copy = R.remove_from_top 28 url.1 in
        omega (
          arith,
          laws.left_lem 176 row x y,
          laws.left_lem 14 code.1 x y,
          laws.top_lem 40 gap.1 x y,
          laws.top_lem 28 url.1 x y,
          laws.left_lem 110 copy.0 x y,
          laws.top_lem 8 copy.1 x y,
        )

    -- What stays below the status line.
    lower_rows :
        (r : Rectangle)
        → let address = control_row 70 r in
          let format = control_row 70 address.2 in
          let packet = control_row 70 format.2 in
          let port = R.remove_from_left 70 (R.remove_from_top 22 packet.2).0 in
          covers x y address.0
            + covers x y address.1
            + covers x y format.0
            + covers x y format.1
            + covers x y packet.0
            + covers x y packet.1
            + covers x y port.0
            + covers x y port.1
          ≤ covers x y r
    lower_rows r =
        let address = control_row 70 r in
        let format = control_row 70 address.2 in
        let packet = control_row 70 format.2 in
        let row = R.remove_from_top 22 packet.2 in
        omega (
          arith,
          control_row-covers 70 r,
          control_row-covers 70 address.2,
          control_row-covers 70 format.2,
          laws.top_lem 22 packet.2 x y,
          laws.left_lem 70 row.0 x y,
        )

    -- However large the window is: a point of it is in one control at most, and a point outside it
    -- is in none, so that no two controls overlap and none leaves the window.
    pub resized-covers :
        (window : Rectangle) → covered x y (controls (resized window)) ≤ covers x y window
    unfolding resized covered
    resized-covers window =
        let inner = R.reduced 18 window in
        let header = R.remove_from_top 44 inner in
        let start = R.remove_from_top 46 header.1 in
        let gap = R.remove_from_top 12 start.1 in
        let code = R.remove_from_top 176 gap.1 in
        let below = R.remove_from_top 10 code.1 in
        let status = R.remove_from_top 32 below.1 in
        let rest = R.remove_from_top 6 status.1 in
        omega (
          arith,
          laws.reduced_lem 18 window x y,
          laws.top_lem 44 inner x y,
          laws.top_lem 46 header.1 x y,
          laws.top_lem 12 start.1 x y,
          laws.top_lem 176 gap.1 x y,
          laws.top_lem 10 code.1 x y,
          laws.top_lem 32 below.1 x y,
          laws.top_lem 6 status.1 x y,
          qr_row-covers code.0,
          lower_rows rest.1,
        )
