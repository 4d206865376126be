-- ===== src/Editor.antt =====
-- plugin/PluginEditor.cpp: what the plugin's window shows, and what its controls do. JUCE's combo boxes
-- and string arrays are parameters; fonts, the colours of labels and painting are left out.
pub mod Status
pub mod Items
pub mod Boxes
pub mod Labels
pub mod Layout
pub mod Clicks
pub mod Choices
mod Tests
use phonepostmix.Base.{
  ℕ, zero, suc, ◌+◌, ◌-◌, ◌==◌, min, Bool, true, false, not, ltb, bytes_eq, ◌&&◌, ◌||◌,
  if◌then◌else◌, Option, none, some, List, [], ◌∷◌, ◌++◌,
}
use phonepostmix.Base.Int.{ℤ, pos, negsuc, pos_part}
use phonepostmix.Editor.Status.{
  Button, accent_colour, background, dash, update_start_button, describe_status, client_rows,
}
use phonepostmix.Engine.{Broadcast, Settings, Engine, set_settings}
use phonepostmix.Engine.Addresses.{IpAddress, StringOps}
use phonepostmix.Engine.Assets.{Resources}
use phonepostmix.Engine.Clients.{JsonOps}
use phonepostmix.Engine.Pairing.{TextOps}
use phonepostmix.Engine.Service.{set_preferred_address, preferred_address_of, listen_url}
use phonepostmix.Http.{bytes, decimal}
use phonepostmix.Processor.{Processor, start_streaming, stop_streaming}
use phonepostmix.Qr.{QrOps, ImageOps, QrCode, new_qr_code, set_text}
use phonepostmix.Ring.Fifo.{AbstractFifo}
use phonepostmix.Wire.{FloatOps, format_of_byte, byte_of_format}

-- juce::ComboBox, whose calls here send no notification.
pub record ComboOps : Type 1 where
  pub Box : Type 0
  pub new_box : Box
  pub clear : Box → Box
  pub add_item : Box → List ℕ → ℕ → Box
  pub set_selected_id : ℕ → Box → Box
  pub get_selected_id : Box → ℕ
  pub get_text : Box → List ℕ

-- `operator==`, `indexOf` and `joinIntoString` of juce::StringArray.
pub record ListOps : Type 0 where
  pub same : List (List ℕ) → List (List ℕ) → Bool
  pub index_of : List (List ℕ) → List ℕ → ℤ
  pub join_into_string : List (List ℕ) → List ℕ → List ℕ

pub record Gui : Type 1 where
  pub qr : QrOps
  pub images : ImageOps
  pub combo : ComboOps
  pub lists : ListOps

abbrev pub packet_id : ℕ → ℕ
packet_id frames = if frames == 256 then 1 else if frames == 1024 then 3 else 2

-- `jlimit (0, 2, id - 1)`, where the subtraction of ℕ gives the lower limit.
abbrev pub format_index : ℕ → ℕ
format_index id = min (id - 1) 2

abbrev pub frames_of_id : ℕ → ℕ
frames_of_id id = if id == 1 then 256 else if id == 3 then 1024 else 512

module _ (C : ComboOps) where
  -- The loop over the addresses, whose ids count from `id`.
  unfoldable pub add_items : List (List ℕ) → ℕ → C.Box → C.Box
  add_items [] id box = box
  add_items (x ∷ items) id box = add_items items (suc id) (C.add_item box x id)

  abbrev pub format_items : C.Box
  format_items =
      C.add_item
        (C.add_item (C.add_item C.new_box (bytes "PCM 16-bit  (1.5 Mbit/s)") 1)
          (bytes "PCM 24-bit  (2.3 Mbit/s)") 2)
        (bytes "Float 32-bit  (3.1 Mbit/s)") 3

  abbrev pub packet_items : C.Box
  packet_items =
      C.add_item (C.add_item (C.add_item C.new_box (bytes "256 frames") 1) (bytes "512 frames") 2)
        (bytes "1024 frames") 3

module _ (J : AbstractFifo) (F : FloatOps) (S : JsonOps) (A : StringOps) (T : TextOps)
    (G : Gui) where
  open G.combo use {Box}

  pub record Editor : Type 0 where
    pub start_button : Button
    pub qr_code : QrCode G.qr G.images
    pub url_label : List ℕ
    pub status_label : List ℕ
    pub clients_label : List ℕ
    pub port_value : List ℕ
    pub copy_enabled : Bool
    pub address_box : Box
    pub format_box : Box
    pub packet_box : Box
    pub meter_left : F.Float
    pub meter_right : F.Float
    pub last_url : List ℕ
    pub last_addresses : List (List ℕ)

  abbrev pub get_peak_level : Engine J F → ℕ → F.Float
  get_peak_level e zero = e.peak_left
  get_peak_level e (suc zero) = e.peak_right
  get_peak_level e (suc (suc channel)) = F.zero_float

  -- With the settings that the two boxes stand for.
  abbrev pub chosen : Editor → Settings → Settings
  chosen d settings = record settings {
    format = format_of_byte (format_index (G.combo.get_selected_id d.format_box));
    frames_per_packet = frames_of_id (G.combo.get_selected_id d.packet_box);
  }

  unfoldable pub push_settings_to_engine :
      Editor → Processor J F S A T → Processor J F S A T × List Broadcast
  push_settings_to_engine d p =
      let r = set_settings J F p.engine.streaming (chosen d p.engine.streaming.settings) in
      (record p { engine = record p.engine { streaming = r.0 } }, r.1)

  unfoldable pub show_addresses : Processor J F S A T → Editor → Editor
  unfolding add_items
  show_addresses p d =
      let addresses = p.engine.addresses in
      let filled = add_items G.combo addresses 1 (G.combo.clear d.address_box) in
      let preferred = G.lists.index_of addresses (preferred_address_of J F S A T p.engine) in
      let shown = record d {
        last_addresses = addresses;
        address_box = G.combo.set_selected_id (pos_part preferred + 1) filled;
      } in
      if G.lists.same addresses d.last_addresses then d else shown

  unfoldable pub show_url : List ℕ → Editor → Editor
  show_url url d =
      let shown = record d {
        last_url = url;
        qr_code = set_text G.qr G.images url d.qr_code;
        url_label = if bytes_eq url [] then dash else T.up_to_first_occurrence_of url (bytes "#");
      } in
      if bytes_eq url d.last_url then d else shown

  unfoldable pub refresh_from_engine : ℕ → Processor J F S A T → Editor → Editor
  unfolding show_addresses show_url
  refresh_from_engine drops p d =
      let url = listen_url J F S A T p.engine in
      let running = p.engine.streaming.server_running in
      record (show_url url (show_addresses p d)) {
        port_value = if running then decimal p.engine.server.bound_port else dash;
        status_label = describe_status J F S A T drops p;
        clients_label = G.lists.join_into_string (client_rows S p.engine.clients) (10 ∷ []);
        copy_enabled = not (bytes_eq url []);
        start_button = update_start_button running;
      }

  -- The constructor, up to its calls of `setSize` and `refreshFromEngine`.
  unfoldable pub with_items : Processor J F S A T → Editor
  with_items p =
      let settings = p.engine.streaming.settings in
      record {
        start_button = record {
          text = [];
          button_colour = accent_colour;
          text_colour_off = background;
        };
        qr_code = new_qr_code G.qr G.images;
        url_label = [];
        status_label = [];
        clients_label = [];
        port_value = [];
        copy_enabled = true;
        address_box = G.combo.new_box;
        format_box =
            G.combo.set_selected_id (byte_of_format settings.format + 1) (format_items G.combo);
        packet_box =
            G.combo.set_selected_id (packet_id settings.frames_per_packet) (packet_items G.combo);
        meter_left = F.zero_float;
        meter_right = F.zero_float;
        last_url = [];
        last_addresses = [];
      }

  unfoldable pub new_editor : ℕ → Processor J F S A T → Editor
  unfolding with_items refresh_from_engine
  new_editor drops p = refresh_from_engine drops p (with_items p)

  unfoldable pub timer_callback : ℕ → Processor J F S A T → Editor → Editor
  unfolding refresh_from_engine
  timer_callback drops p d = refresh_from_engine drops p (record d {
    meter_left = get_peak_level p.engine.streaming 0;
    meter_right = get_peak_level p.engine.streaming 1;
  })

  -- startButton.onClick.
  unfoldable pub start_clicked :
      List IpAddress
      → (ℕ → Bool)
      → Resources
      → ℕ
      → Processor J F S A T
      → Editor
      → Processor J F S A T × Editor
  unfolding refresh_from_engine
  start_clicked all binds resources drops p d =
      let started = (start_streaming J F S A T all binds resources p).0 in
      let stopped = stop_streaming J F S A T p in
      let q = if p.engine.streaming.server_running then stopped else started in
      (q, refresh_from_engine drops q d)

  -- copyUrlButton.onClick, with what is copied, if anything.
  unfoldable pub copy_clicked : Editor → Option (List ℕ)
  copy_clicked d = if bytes_eq d.last_url [] then none else some d.last_url

  -- addressBox.onChange.
  unfoldable pub address_changed : ℕ → Processor J F S A T → Editor → Processor J F S A T × Editor
  unfolding refresh_from_engine
  address_changed drops p d =
      let q = record p {
        engine = set_preferred_address J F S A T (G.combo.get_text d.address_box) p.engine;
      } in
      (q, refresh_from_engine drops q d)
