-- ===== src/Editor/Labels.antt =====
-- plugin/PluginEditor.cpp: the URL that the window shows, in its label, in its QR code and to copy.
use phonepostmix.Base.{
  ℕ, ◌≡◌, refl, sym, ap, ◌∙◌, subst, Bool, true, false, not, bytes_eq, bytes_eq→eq, ◌||◌,
  if◌then◌else◌, if_intro, none, some, List, [], ◌∷◌,
}
use phonepostmix.Editor.{
  Gui, Editor, show_addresses, show_url, refresh_from_engine, new_editor, timer_callback,
  with_items, copy_clicked,
}
use phonepostmix.Editor.Boxes.{watch}
use phonepostmix.Editor.Status.{dash}
use phonepostmix.Engine.Addresses.{StringOps}
use phonepostmix.Engine.Clients.{JsonOps}
use phonepostmix.Engine.Pairing.{TextOps}
use phonepostmix.Engine.Service.{listen_url}
use phonepostmix.Http.{bytes}
use phonepostmix.Processor.{Processor}
use phonepostmix.Qr.Pixels.{ImageLaws, Shows, set_text-Shows, new_qr_code-Shows}
use phonepostmix.Ring.Fifo.{AbstractFifo}
use phonepostmix.Wire.{FloatOps}

abbrev pub has_text : List ℕ → Bool
has_text url = not (bytes_eq url [])

module _ (J : AbstractFifo) (F : FloatOps) (S : JsonOps) (A : StringOps) (T : TextOps)
    (G : Gui) where
  abbrev url_of : Processor J F S A T → List ℕ
  url_of p = listen_url J F S A T p.engine

  -- The URL of the last refresh.
  unfoldable pub last_url_of : List (ℕ × Processor J F S A T) → List ℕ → List ℕ
  last_url_of [] url = url
  last_url_of ((drops, p) ∷ seen) url = last_url_of seen (listen_url J F S A T p.engine)

  -- Whether there was a URL at some refresh.
  unfoldable pub ever_url : List (ℕ × Processor J F S A T) → Bool → Bool
  ever_url [] ever = ever
  ever_url ((drops, p) ∷ seen) ever =
      ever_url seen (ever || has_text (listen_url J F S A T p.engine))

  abbrev pub label_of : List ℕ → List ℕ
  label_of url = if bytes_eq url [] then dash else T.up_to_first_occurrence_of url (bytes "#")

  module _ (laws : ImageLaws G.images) where
    -- The window is about `url`, and `ever` tells whether there was one at all.
    record Follows (ever : Bool) (url : List ℕ) (d : Editor J F S A T G) : Type 0 where
      last : d.last_url ≡ url
      encoded : d.qr_code.encoded ≡ url
      shows : Shows G.qr G.images laws url d.qr_code.image
      label : d.url_label ≡ (if ever then label_of url else [])
      blank : ever ≡ false → url ≡ []

    still_ever :
        (ever : Bool) (url : List ℕ) → (ever ≡ false → url ≡ []) → (ever || has_text url) ≡ ever
    still_ever true url blank = refl
    still_ever false url blank = ap has_text (blank refl)

    now_ever :
        (ever : Bool) (url new : List ℕ)
        → (ever ≡ false → url ≡ [])
        → bytes_eq new url ≡ false
        → (ever || has_text new) ≡ true
    now_ever true url new blank e = refl
    now_ever false url new blank e = ap not (ap (bytes_eq new) (sym (blank refl)) ∙ e)

    show_url-Follows :
        (ever : Bool) (url new : List ℕ) (d : Editor J F S A T G)
        → Follows ever url d
        → Follows (ever || has_text new) new (show_url J F S A T G new d)
    unfolding show_url
    show_url-Follows ever url new d f =
        if_intro (Follows (ever || has_text new) new) (bytes_eq new d.last_url)
          (λ e.
            subst (λ u. Follows (ever || has_text u) u d)
              (sym (bytes_eq→eq new d.last_url e ∙ f.last))
              (subst (λ b. Follows b url d) (sym (still_ever ever url f.blank)) f))
          (λ e.
            (let (encoded, shows, _) =
                set_text-Shows G.qr G.images laws new d.qr_code (
                  subst (λ u. Shows G.qr G.images laws u d.qr_code.image) (sym f.encoded)
                    f.shows) in
              let shown = now_ever ever url new f.blank (ap (bytes_eq new) (sym f.last) ∙ e) in
              record {
                last = refl;
                encoded = encoded;
                shows = shows;
                label = ap (λ b. if b then label_of new else []) (sym shown);
                blank = λ k. absurd (cc);
              }))

    show_addresses-Follows :
        (ever : Bool) (url : List ℕ) (p : Processor J F S A T) (d : Editor J F S A T G)
        → Follows ever url d
        → Follows ever url (show_addresses J F S A T G p d)
    unfolding show_addresses
    show_addresses-Follows ever url p d f =
        if_intro (Follows ever url) (G.lists.same p.engine.addresses d.last_addresses) (λ _. f)
          (λ _. record {
            last = f.last;
            encoded = f.encoded;
            shows = f.shows;
            label = f.label;
            blank = f.blank;
          })

    refresh-Follows :
        (ever : Bool) (url : List ℕ) (drops : ℕ) (p : Processor J F S A T) (d : Editor J F S A T G)
        → Follows ever url d
        → Follows
            (ever || has_text (url_of p))
            (url_of p)
            (refresh_from_engine J F S A T G drops p d)
    unfolding refresh_from_engine
    refresh-Follows ever url drops p d f =
        let g =
          show_url-Follows ever url (url_of p) (show_addresses J F S A T G p d)
            (show_addresses-Follows ever url p d f) in
        record {
          last = g.last;
          encoded = g.encoded;
          shows = g.shows;
          label = g.label;
          blank = g.blank;
        }

    watch-Follows :
        (ever : Bool) (url : List ℕ) (seen : List (ℕ × Processor J F S A T))
        (d : Editor J F S A T G)
        → Follows ever url d
        → Follows (ever_url seen ever) (last_url_of seen url) (watch J F S A T G seen d)
    unfolding watch ever_url last_url_of timer_callback
    watch-Follows ever url [] d f = f
    watch-Follows ever url ((drops, p) ∷ seen) d f =
        watch-Follows (ever || has_text (url_of p)) (url_of p) seen
          (timer_callback J F S A T G drops p d)
          (refresh-Follows ever url drops p
            (record d {
              meter_left = p.engine.streaming.peak_left;
              meter_right = p.engine.streaming.peak_right;
            })
            (record {
              last = f.last;
              encoded = f.encoded;
              shows = f.shows;
              label = f.label;
              blank = f.blank;
            }))

    with_items-Follows : (p : Processor J F S A T) → Follows false [] (with_items J F S A T G p)
    unfolding with_items
    with_items-Follows p = record {
      last = refl;
      encoded = refl;
      shows = new_qr_code-Shows G.qr G.images laws;
      label = refl;
      blank = λ _. refl;
    }

    -- A window that was opened and then refreshed any number of times: its QR code is that of the
    -- listen URL at the last refresh, which is also what its button copies, if it is not empty. Its
    -- label shows that URL without its token, or a dash where it is empty; but it is blank as long
    -- as there has been no URL at any refresh.
    pub watch-follows_url :
        (drops : ℕ) (p : Processor J F S A T) (seen : List (ℕ × Processor J F S A T))
        → let d = watch J F S A T G seen (new_editor J F S A T G drops p) in
          let url = last_url_of seen (listen_url J F S A T p.engine) in
          (d.qr_code.encoded ≡ url)
          × Shows G.qr G.images laws url d.qr_code.image
          × (copy_clicked J F S A T G d ≡ (if bytes_eq url [] then none else some url))
          × (d.url_label ≡ (
              if ever_url seen (has_text (listen_url J F S A T p.engine))
              then (if bytes_eq url [] then dash else T.up_to_first_occurrence_of url (bytes "#"))
              else []))
    unfolding new_editor copy_clicked
    watch-follows_url drops p seen =
        let f =
          watch-Follows (has_text (url_of p)) (url_of p) seen (new_editor J F S A T G drops p)
            (refresh-Follows false [] drops p (with_items J F S A T G p) (with_items-Follows p)) in
        (f.encoded, f.shows, ap (λ u. if bytes_eq u [] then none else some u) f.last, f.label)
