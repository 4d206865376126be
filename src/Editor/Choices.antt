-- ===== src/Editor/Choices.antt =====
-- plugin/PluginEditor.cpp: the address box, and the choice of an address.
use phonepostmix.Base.{
  no_text, ℕ, ◌+◌, ◌<◌, ◌≡◌, ◌≢◌, refl, sym, ap, ◌∙◌, subst, arith, Bool, true, false, not,
  bytes_eq, bytes_eq→eq, bytes_eq_refl, ◌||◌, if◌then◌else◌, if_intro, some, List, [], ◌∷◌, ◌++◌,
  get_elem?,
}
use phonepostmix.Base.Int.{pos_part}
use phonepostmix.Editor.{
  Gui, Editor, add_items, show_addresses, show_url, refresh_from_engine, new_editor, with_items,
  address_changed,
}
use phonepostmix.Editor.Items.{
  ComboLaws, ListLaws, find_text, numbered, find_text-numbered, count-elem, items-add_items,
}
use phonepostmix.Engine.Addresses.{StringOps, get_preferred_address, get_listen_url}
use phonepostmix.Engine.Addresses.Order.{count, StringLaws}
use phonepostmix.Engine.Clients.{JsonOps}
use phonepostmix.Engine.Pairing.{TextOps}
use phonepostmix.Engine.Service.{preferred_address_of, listen_url, set_preferred_address}
use phonepostmix.Http.{bytes, decimal}
use phonepostmix.Processor.{Processor}
use phonepostmix.Ring.Fifo.{AbstractFifo}
use phonepostmix.Wire.{FloatOps}

module _ (J : AbstractFifo) (F : FloatOps) (S : JsonOps) (A : StringOps) (T : TextOps)
    (G : Gui) where
  abbrev Window : Type 0
  Window = Editor J F S A T G

  preferred-count :
      (laws : StringLaws A) (preferred : List ℕ) (xs : List (List ℕ))
      → xs ≢ []
      → 0 < count (get_preferred_address A preferred xs) xs
  unfolding get_preferred_address count
  preferred-count laws preferred [] some_address = absurd (some_address refl)
  preferred-count laws preferred (x ∷ xs) some_address =
      ground (arith, laws.contains_lem (x ∷ xs) preferred, bytes_eq_refl x)

  get_preferred-listed :
      (laws : StringLaws A) (a : List ℕ) (xs : List (List ℕ))
      → a ≢ []
      → 0 < count a xs
      → get_preferred_address A a xs ≡ a
  unfolding get_preferred_address
  get_preferred-listed laws a xs some_text listed =
      ground (arith, no_text a some_text, laws.contains_lem xs a)

  get_listen_url-eq :
      (token preferred a : List ℕ) (xs : List (List ℕ)) (running : Bool) (port : ℕ)
      → a ≢ []
      → get_preferred_address A preferred xs ≡ a
      → get_listen_url A token preferred xs running port ≡ (
          if running
          then bytes "http://" ++ a ++ bytes ":" ++ decimal port ++ bytes "/#t=" ++ token
          else [])
  unfolding get_listen_url
  get_listen_url-eq token preferred a xs running port some_text e =
      let url = λ (x : List ℕ).
        bytes "http://" ++ x ++ bytes ":" ++ decimal port ++ bytes "/#t=" ++ token in
      ap (λ x. if bytes_eq x [] || not running then [] else url x) e
      ∙ ap (λ b. if b || not running then [] else url a) (no_text a some_text)
      ∙ flip running (url a)
    where
      flip : (b : Bool) (u : List ℕ) → (if not b then [] else u) ≡ (if b then u else [])
      flip true u = refl
      flip false u = refl

  show_url-box :
      (url : List ℕ) (d : Window)
      → ((show_url J F S A T G url d).address_box ≡ d.address_box)
        × ((show_url J F S A T G url d).last_addresses ≡ d.last_addresses)
  unfolding show_url
  show_url-box url d = ground arith

  show_url-last : (url : List ℕ) (d : Window) → (show_url J F S A T G url d).last_url ≡ url
  unfolding show_url
  show_url-last url d = ground (arith, bytes_eq→eq url d.last_url)

  module _ (combo : ComboLaws G.combo) (lists : ListLaws G.lists) (strings : StringLaws A) where
    -- The address box lists the engine's addresses, in their order.
    pub record InStep (p : Processor J F S A T) (d : Window) : Type 0 where
      pub listed : combo.items d.address_box ≡ numbered 1 p.engine.addresses
      pub last : d.last_addresses ≡ p.engine.addresses

    shown_text :
        (p : Processor J F S A T) (b : G.combo.Box) (i : ℕ) (a : List ℕ)
        → combo.items b ≡ numbered 1 p.engine.addresses
        → get_elem? p.engine.addresses i ≡ some a
        → G.combo.get_text (G.combo.set_selected_id (i + 1) b) ≡ a
    shown_text p b i a e found =
        let shift : 1 + i ≡ i + 1 = omega arith in
        (combo.select b a (i + 1) (
          ap (find_text (i + 1)) e
          ∙ subst
              (λ k. find_text k (numbered 1 p.engine.addresses) ≡ get_elem? p.engine.addresses i)
              shift (find_text-numbered p.engine.addresses 1 i)
          ∙ found)).1

    filled-items :
        (p : Processor J F S A T) (d : Window)
        → combo.items (add_items G.combo p.engine.addresses 1 (G.combo.clear d.address_box))
          ≡ numbered 1 p.engine.addresses
    filled-items p d =
        items-add_items G.combo combo p.engine.addresses 1 (G.combo.clear d.address_box)
        ∙ ap (λ l. l ++ numbered 1 p.engine.addresses) (combo.items_clear d.address_box)

    Listed : Window → Type 0
    Listed d = combo.items d.address_box ≡ numbered 1 d.last_addresses

    show_addresses-InStep :
        (p : Processor J F S A T) (d : Window)
        → Listed d
        → InStep p (show_addresses J F S A T G p d)
    unfolding show_addresses Listed
    show_addresses-InStep p d h =
        if_intro (InStep p) (G.lists.same p.engine.addresses d.last_addresses)
          (λ e.
            (let same = sym (lists.same_lem p.engine.addresses d.last_addresses e) in
              record { listed = h ∙ ap (numbered 1) same; last = same }))
          (λ _. record {
            listed =
                combo.items_select
                  (add_items G.combo p.engine.addresses 1 (G.combo.clear d.address_box)) _
                ∙ filled-items p d;
            last = refl;
          })

    -- The refresh leaves the boxes and the addresses as `show_addresses` does.
    refresh-InStep :
        (drops : ℕ) (p : Processor J F S A T) (d : Window)
        → Listed d
        → InStep p (refresh_from_engine J F S A T G drops p d)
    unfolding refresh_from_engine
    refresh-InStep drops p d h =
        let after = show_addresses J F S A T G p d in
        let s = show_addresses-InStep p d h in
        record {
          listed = ap combo.items (show_url-box (listen_url J F S A T p.engine) after).0 ∙ s.listed;
          last = (show_url-box (listen_url J F S A T p.engine) after).1 ∙ s.last;
        }

    with_items-Listed : (p : Processor J F S A T) → Listed (with_items J F S A T G p)
    unfolding Listed with_items numbered
    with_items-Listed p = combo.items_new

    pub new_editor-InStep :
        (drops : ℕ) (p : Processor J F S A T) → InStep p (new_editor J F S A T G drops p)
    unfolding new_editor
    new_editor-InStep drops p =
        refresh-InStep drops p (with_items J F S A T G p) (with_items-Listed p)

    refresh-last_url :
        (drops : ℕ) (p : Processor J F S A T) (d : Window)
        → (refresh_from_engine J F S A T G drops p d).last_url ≡ listen_url J F S A T p.engine
    unfolding refresh_from_engine
    refresh-last_url drops p d =
        show_url-last (listen_url J F S A T p.engine) (show_addresses J F S A T G p d)

    show_addresses-same :
        (p : Processor J F S A T) (d : Window)
        → d.last_addresses ≡ p.engine.addresses
        → show_addresses J F S A T G p d ≡ d
    unfolding show_addresses
    show_addresses-same p d e =
        if_intro (λ (r : Window). r ≡ d) (G.lists.same p.engine.addresses d.last_addresses)
          (λ _. refl)
          (λ apart. absurd (
            let same =
              ap (G.lists.same p.engine.addresses) e ∙ lists.same_refl p.engine.addresses in
            cc))

    refresh-same_box :
        (drops : ℕ) (p : Processor J F S A T) (d : Window)
        → d.last_addresses ≡ p.engine.addresses
        → (refresh_from_engine J F S A T G drops p d).address_box ≡ d.address_box
    unfolding refresh_from_engine
    refresh-same_box drops p d e =
        (show_url-box (listen_url J F S A T p.engine) (show_addresses J F S A T G p d)).0
        ∙ ap (λ r. r.address_box) (show_addresses-same p d e)

    show_addresses-preferred :
        (p : Processor J F S A T) (d : Window)
        → p.engine.addresses ≢ []
        → d.last_addresses ≡ []
        → G.combo.get_text (show_addresses J F S A T G p d).address_box
          ≡ preferred_address_of J F S A T p.engine
    unfolding show_addresses
    show_addresses-preferred p d some_address e =
        let preferred = preferred_address_of J F S A T p.engine in
        let filled = add_items G.combo p.engine.addresses 1 (G.combo.clear d.address_box) in
        let (i, at, found) =
          lists.index_of_lem p.engine.addresses preferred
            (preferred-count strings p.engine.preferred_address p.engine.addresses some_address) in
        if_intro (λ (r : Window). G.combo.get_text r.address_box ≡ preferred)
          (G.lists.same p.engine.addresses d.last_addresses)
          (λ k. absurd (some_address (lists.same_lem p.engine.addresses d.last_addresses k ∙ e)))
          (λ _.
            ap (λ z. G.combo.get_text (G.combo.set_selected_id (pos_part z + 1) filled)) at
            ∙ shown_text p filled i preferred (filled-items p d) found)

    -- The user's choice of an address, by the id of its item.
    abbrev pub address_selected : ℕ → Window → Window
    address_selected id d = record d { address_box = G.combo.set_selected_id id d.address_box }

    -- The choice of an address in a window whose box lists the engine's: from then on the engine
    -- prefers it, its listen URL leads there while it runs, and the window is about that URL. The
    -- box still shows the choice after the refresh.
    pub address_changed_lem :
        (drops : ℕ) (p : Processor J F S A T) (d : Window) (i : ℕ) (a : List ℕ)
        → InStep p d
        → get_elem? p.engine.addresses i ≡ some a
        → a ≢ []
        → let r = address_changed J F S A T G drops p (address_selected (i + 1) d) in
          (preferred_address_of J F S A T r.0.engine ≡ a)
          × (listen_url J F S A T r.0.engine ≡ (
              if p.engine.streaming.server_running
              then bytes "http://"
                ++ a
                ++ bytes ":"
                ++ decimal p.engine.server.bound_port
                ++ bytes "/#t="
                ++ p.engine.token
              else []))
          × (r.1.last_url ≡ listen_url J F S A T r.0.engine)
          × (G.combo.get_text r.1.address_box ≡ a)
    unfolding address_changed
    address_changed_lem drops p d i a s found some_text =
        let text = shown_text p d.address_box i a s.listed found in
        let q = record p {
          engine =
              set_preferred_address J F S A T
                (G.combo.get_text (G.combo.set_selected_id (i + 1) d.address_box)) p.engine;
        } in
        let preferred =
          ap (λ t. get_preferred_address A t p.engine.addresses) text
          ∙ get_preferred-listed strings a p.engine.addresses some_text
              (count-elem p.engine.addresses i a found) in
        (
          preferred,
          get_listen_url-eq p.engine.token q.engine.preferred_address a p.engine.addresses
              p.engine.streaming.server_running p.engine.server.bound_port some_text preferred,
          refresh-last_url drops q (address_selected (i + 1) d),
          ap G.combo.get_text (refresh-same_box drops q (address_selected (i + 1) d) s.last) ∙ text,
        )

    -- The address that the box shows in a window opened on an engine that has addresses: the one that
    -- the engine prefers, which its listen URL leads to.
    pub opened_address :
        (drops : ℕ) (p : Processor J F S A T)
        → p.engine.addresses ≢ []
        → G.combo.get_text (new_editor J F S A T G drops p).address_box
          ≡ preferred_address_of J F S A T p.engine
    unfolding new_editor with_items refresh_from_engine
    opened_address drops p some_address =
        let d = with_items J F S A T G p in
        ap G.combo.get_text
          (show_url-box (listen_url J F S A T p.engine) (show_addresses J F S A T G p d)).0
        ∙ show_addresses-preferred p d some_address refl
