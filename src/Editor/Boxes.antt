-- ===== src/Editor/Boxes.antt =====
-- plugin/PluginEditor.cpp: the boxes for the format and the packet size, and `pushSettingsToEngine`.
use phonepostmix.Base.{
  ℕ, ◌+◌, ==_refl, ◌≡◌, ◌≢◌, refl, sym, ap, ◌∙◌, arith, ◌⊎◌, inl, inr, List, [], ◌∷◌,
}
use phonepostmix.Editor.{
  Gui, Editor, format_items, packet_items, packet_id, format_index, frames_of_id, chosen,
  push_settings_to_engine, show_addresses, show_url, refresh_from_engine, new_editor,
  timer_callback, with_items,
}
use phonepostmix.Editor.Items.{ComboLaws, items_three, selected_three}
use phonepostmix.Engine.{Broadcast, Settings, Engine, set_settings}
use phonepostmix.Engine.Addresses.{StringOps}
use phonepostmix.Engine.Clients.{JsonOps}
use phonepostmix.Engine.Pairing.{TextOps}
use phonepostmix.Processor.{Processor}
use phonepostmix.Ring.Fifo.{AbstractFifo}
use phonepostmix.Wire.{
  FloatOps, Format, pcm16, pcm24, float32, other, format_of_byte, byte_of_format,
}
use phonepostmix.Wire.Samples.{IsNamed}

-- The packet size that a box shows of the settings' one.
abbrev pub shown_frames : ℕ → ℕ
shown_frames n = frames_of_id (packet_id n)

shown_frames_same : (n : ℕ) → (n ≡ 256) ⊎ (n ≡ 512) ⊎ (n ≡ 1024) → shown_frames n ≡ n
shown_frames_same n h = ground arith

shown_frames_other : (n : ℕ) → n ≢ 256 → n ≢ 1024 → shown_frames n ≡ 512
shown_frames_other n h k = ground arith

packet_id-one : (n : ℕ) → (packet_id n ≡ 1) ⊎ (packet_id n ≡ 2) ⊎ (packet_id n ≡ 3)
packet_id-one n = ground arith

format_id-one :
    (f : Format)
    → IsNamed f
    → (byte_of_format f + 1 ≡ 1) ⊎ (byte_of_format f + 1 ≡ 2) ⊎ (byte_of_format f + 1 ≡ 3)
unfolding byte_of_format
format_id-one pcm16 named = inl refl
format_id-one pcm24 named = inr (inl refl)
format_id-one float32 named = inr (inr refl)
format_id-one (other n) named = absurd named

format_index_lem :
    (f : Format) → IsNamed f → format_of_byte (format_index (byte_of_format f + 1)) ≡ f
unfolding byte_of_format format_of_byte
format_index_lem pcm16 named = refl
format_index_lem pcm24 named = refl
format_index_lem float32 named = refl
format_index_lem (other n) named = absurd named

module _ (J : AbstractFifo) (F : FloatOps) (S : JsonOps) (A : StringOps) (T : TextOps)
    (G : Gui) where
  abbrev pub Window : Type 0
  Window = Editor J F S A T G

  -- The timer's calls, each with the server's drops and the processor as it stands then.
  unfoldable pub watch : List (ℕ × Processor J F S A T) → Window → Window
  watch [] d = d
  watch ((drops, p) ∷ seen) d = watch seen (timer_callback J F S A T G drops p d)

  -- Between two windows, with the same selections.
  record SameBoxes (d e : Window) : Type 0 where
    format : e.format_box ≡ d.format_box
    packet : e.packet_box ≡ d.packet_box

  refresh-SameBoxes :
      (drops : ℕ) (p : Processor J F S A T) (d : Window)
      → SameBoxes d (refresh_from_engine J F S A T G drops p d)
  unfolding refresh_from_engine show_addresses show_url
  refresh-SameBoxes drops p d = ground arith

  watch-SameBoxes :
      (seen : List (ℕ × Processor J F S A T)) (d : Window) → SameBoxes d (watch seen d)
  unfolding watch timer_callback
  watch-SameBoxes [] d = record { format = refl; packet = refl }
  watch-SameBoxes ((drops, p) ∷ seen) d =
      let after = timer_callback J F S A T G drops p d in
      let more = watch-SameBoxes seen after in
      let first = refresh-SameBoxes drops p (record d {
        meter_left = p.engine.streaming.peak_left;
        meter_right = p.engine.streaming.peak_right;
      }) in
      record { format = more.format ∙ first.format; packet = more.packet ∙ first.packet }

  -- The settings with the format and the packet size that a window opened on `p` shows.
  abbrev pub opened_on : Processor J F S A T → Settings → Settings
  opened_on p settings = record settings {
    format = p.engine.streaming.settings.format;
    frames_per_packet = shown_frames p.engine.streaming.settings.frames_per_packet;
  }

  opened-format :
      (laws : ComboLaws G.combo) (drops : ℕ) (p : Processor J F S A T)
      → IsNamed p.engine.streaming.settings.format
      → G.combo.get_selected_id (new_editor J F S A T G drops p).format_box
        ≡ byte_of_format p.engine.streaming.settings.format + 1
  unfolding new_editor with_items
  opened-format laws drops p named =
      ap G.combo.get_selected_id (refresh-SameBoxes drops p (with_items J F S A T G p)).format
      ∙ selected_three G.combo laws (format_items G.combo) _ _ _
          (byte_of_format p.engine.streaming.settings.format + 1) (items_three G.combo laws _ _ _)
          (format_id-one p.engine.streaming.settings.format named)

  opened-packet :
      (laws : ComboLaws G.combo) (drops : ℕ) (p : Processor J F S A T)
      → G.combo.get_selected_id (new_editor J F S A T G drops p).packet_box
        ≡ packet_id p.engine.streaming.settings.frames_per_packet
  unfolding new_editor with_items
  opened-packet laws drops p =
      ap G.combo.get_selected_id (refresh-SameBoxes drops p (with_items J F S A T G p)).packet
      ∙ selected_three G.combo laws (packet_items G.combo) _ _ _
          (packet_id p.engine.streaming.settings.frames_per_packet) (items_three G.combo laws _ _ _)
          (packet_id-one p.engine.streaming.settings.frames_per_packet)

  chosen-eq :
      (d : Window) (settings : Settings) (f : Format) (i k : ℕ)
      → G.combo.get_selected_id d.format_box ≡ i
      → G.combo.get_selected_id d.packet_box ≡ k
      → format_of_byte (format_index i) ≡ f
      → chosen J F S A T G d settings
        ≡ record settings { format = f; frames_per_packet = frames_of_id k }
  chosen-eq d settings f i k h l named =
      ap (λ x. settings_of x (frames_of_id (G.combo.get_selected_id d.packet_box)))
        (ap (λ x. format_of_byte (format_index x)) h ∙ named)
      ∙ ap (λ x. settings_of f (frames_of_id x)) l
    where
      settings_of : Format → ℕ → Settings
      settings_of x n = record settings { format = x; frames_per_packet = n }

  opened-chosen :
      (laws : ComboLaws G.combo) (drops : ℕ) (p : Processor J F S A T)
      (seen : List (ℕ × Processor J F S A T)) (settings : Settings)
      → IsNamed p.engine.streaming.settings.format
      → chosen J F S A T G (watch seen (new_editor J F S A T G drops p)) settings
        ≡ opened_on p settings
  opened-chosen laws drops p seen settings named =
      let d = new_editor J F S A T G drops p in
      let same = watch-SameBoxes seen d in
      chosen-eq (watch seen d) settings p.engine.streaming.settings.format
        (byte_of_format p.engine.streaming.settings.format + 1)
        (packet_id p.engine.streaming.settings.frames_per_packet)
        (ap G.combo.get_selected_id same.format ∙ opened-format laws drops p named)
        (ap G.combo.get_selected_id same.packet ∙ opened-packet laws drops p)
        (format_index_lem p.engine.streaming.settings.format named)

  set_settings-settings :
      (e : Engine J F) (new : Settings) → (set_settings J F e new).0.settings ≡ new
  unfolding set_settings
  set_settings-settings e new = ground arith

  set_settings_same : (e : Engine J F) → set_settings J F e e.settings ≡ (e, [])
  unfolding set_settings
  set_settings_same e =
      ground
        (arith, ==_refl (byte_of_format e.settings.format), ==_refl e.settings.frames_per_packet)

  abbrev with_frames : Processor J F S A T → ℕ → Settings
  with_frames p n = record p.engine.streaming.settings { frames_per_packet = n }

  abbrev put_back :
      Processor J F S A T → Engine J F × List Broadcast → Processor J F S A T × List Broadcast
  put_back q r = (record q { engine = record q.engine { streaming = r.0 } }, r.1)

  -- The user's choice in the packet box.
  abbrev pub packet_chosen : ℕ → Window → Window
  packet_chosen id d = record d { packet_box = G.combo.set_selected_id id d.packet_box }

  chosen_packet :
      (laws : ComboLaws G.combo) (drops : ℕ) (p : Processor J F S A T)
      (seen : List (ℕ × Processor J F S A T)) (id : ℕ)
      → (id ≡ 1) ⊎ (id ≡ 2) ⊎ (id ≡ 3)
      → G.combo.get_selected_id
          (packet_chosen id (watch seen (new_editor J F S A T G drops p))).packet_box
        ≡ id
  unfolding new_editor with_items
  chosen_packet laws drops p seen id h =
      let d = new_editor J F S A T G drops p in
      let same =
        (watch-SameBoxes seen d).packet
        ∙ (refresh-SameBoxes drops p (with_items J F S A T G p)).packet in
      selected_three G.combo laws (watch seen d).packet_box _ _ _ id
        (ap laws.items same
          ∙ laws.items_select (packet_items G.combo)
              (packet_id p.engine.streaming.settings.frames_per_packet)
          ∙ items_three G.combo laws _ _ _)
        h

  -- A packet size chosen in a window that was opened on `p` and has been refreshed since: the engine
  -- gets that size, and with it the format that `p` had when the window was opened, whatever
  -- format the engine has been set to since. Its port and its latency stay.
  pub stale_format :
      (laws : ComboLaws G.combo) (drops : ℕ) (p q : Processor J F S A T)
      (seen : List (ℕ × Processor J F S A T)) (id : ℕ)
      → IsNamed p.engine.streaming.settings.format
      → (id ≡ 1) ⊎ (id ≡ 2) ⊎ (id ≡ 3)
      → (push_settings_to_engine J F S A T G
          (packet_chosen id (watch seen (new_editor J F S A T G drops p)))
          q).0.engine.streaming.settings
        ≡ record q.engine.streaming.settings {
          format = p.engine.streaming.settings.format;
          frames_per_packet = frames_of_id id;
        }
  unfolding push_settings_to_engine
  stale_format laws drops p q seen id named h =
      let d = new_editor J F S A T G drops p in
      set_settings-settings q.engine.streaming
        (chosen J F S A T G (packet_chosen id (watch seen d)) q.engine.streaming.settings)
      ∙ chosen-eq (packet_chosen id (watch seen d)) q.engine.streaming.settings
          p.engine.streaming.settings.format (byte_of_format p.engine.streaming.settings.format + 1)
          id
          (ap G.combo.get_selected_id (watch-SameBoxes seen d).format
            ∙ opened-format laws drops p named)
          (chosen_packet laws drops p seen id h)
          (format_index_lem p.engine.streaming.settings.format named)

  -- The settings pushed from the boxes of a window that was opened on `p` and has been refreshed
  -- since, into a `q` that still has `p`'s: nothing changes and nothing is broadcast where the
  -- packet size is one of those offered; any other packet size becomes 512.
  pub push-opened :
      (laws : ComboLaws G.combo) (drops : ℕ) (p q : Processor J F S A T)
      (seen : List (ℕ × Processor J F S A T))
      → IsNamed p.engine.streaming.settings.format
      → q.engine.streaming.settings ≡ p.engine.streaming.settings
      → let n = p.engine.streaming.settings.frames_per_packet in
        let r =
          push_settings_to_engine J F S A T G (watch seen (new_editor J F S A T G drops p)) q in
        ((n ≡ 256) ⊎ (n ≡ 512) ⊎ (n ≡ 1024) → r ≡ (q, []))
        × (n ≢ 256
            → n ≢ 1024
            → r.0.engine.streaming.settings
              ≡ record p.engine.streaming.settings { frames_per_packet = 512 })
  unfolding push_settings_to_engine
  push-opened laws drops p q seen named e =
      let n = p.engine.streaming.settings.frames_per_packet in
      let d = watch seen (new_editor J F S A T G drops p) in
      let pushed =
        opened-chosen laws drops p seen q.engine.streaming.settings named ∙ ap (opened_on p) e in
      (
        λ offered. ap (put_back q) (
            ap (set_settings J F q.engine.streaming)
              (pushed ∙ ap (with_frames p) (shown_frames_same n offered) ∙ sym e)
            ∙ set_settings_same q.engine.streaming),
        λ h k.
            set_settings-settings q.engine.streaming
              (chosen J F S A T G d q.engine.streaming.settings)
            ∙ pushed
            ∙ ap (with_frames p) (shown_frames_other n h k),
      )
