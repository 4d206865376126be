-- ===== src/Editor/Tests.antt =====
-- The window of a concrete plugin, with boxes as lists of items.
use phonepostmix.Base.{
  ℕ, suc, ◌<◌, ◌≡◌, inl, inr, refl, sym, ap, arith, Bool, true, false, Bool-cases, bytes_eq,
  bytes_eq→eq, bytes_eq_refl, ◌&&◌, if◌then◌else◌, Option, none, some, List, [], ◌∷◌, ◌++◌,
  get_elem?,
}
use phonepostmix.Base.Int.{ℤ, pos, negsuc}
use phonepostmix.Editor.{
  ComboOps, ListOps, Gui, Editor, push_settings_to_engine, new_editor, address_changed,
  copy_clicked,
}
use phonepostmix.Editor.Boxes.{watch, packet_chosen, stale_format}
use phonepostmix.Editor.Choices.{address_selected, new_editor-InStep, address_changed_lem}
use phonepostmix.Editor.Items.{ComboLaws, ListLaws, find_text}
use phonepostmix.Editor.Labels.{last_url_of, ever_url, watch-follows_url}
use phonepostmix.Editor.Status.{dash}
use phonepostmix.Engine.Addresses.{get_listen_url, get_preferred_address}
use phonepostmix.Engine.Addresses.Order.{count}
use phonepostmix.Engine.Addresses.Tests.{strings, strings-StringLaws}
use phonepostmix.Engine.Clients.Tests.{plain_json}
use phonepostmix.Engine.Pairing.Tests.{texts}
use phonepostmix.Engine.Service.{preferred_address_of, listen_url}
use phonepostmix.Engine.Service.Tests.{idle}
use phonepostmix.Engine.Tests.{live}
use phonepostmix.Http.{bytes, decimal_from}
use phonepostmix.Processor.{Processor}
use phonepostmix.Qr.Pixels.{Shows}
use phonepostmix.Qr.Tests.{diagonal, pictures, pictures-ImageLaws}
use phonepostmix.Ring.Counting.{counting}
use phonepostmix.Wire.{pcm24}
use phonepostmix.Engine.{default_settings}
use phonepostmix.Wire.Hundredths.{hundredths}

record Box : Type 0 where
  items : List (ℕ × List ℕ)
  selected : ℕ

or_empty : Option (List ℕ) → List ℕ
or_empty none = []
or_empty (some t) = t

abbrev boxes : ComboOps
boxes = record {
  Box = Box;
  new_box = record { items = []; selected = 0 };
  clear = λ b. record { items = []; selected = 0 };
  add_item = λ b t id. record b { items = b.items ++ (id, t) ∷ [] };
  set_selected_id = λ id b. record b { selected = id };
  get_selected_id = λ b. b.selected;
  get_text = λ b. or_empty (find_text b.selected b.items);
}

boxes-ComboLaws : ComboLaws boxes
unfolding or_empty
boxes-ComboLaws = record {
  items = λ b. b.items;
  items_new = refl;
  items_clear = λ b. refl;
  items_add = λ b t id. refl;
  items_select = λ b id. refl;
  select = λ b t id e. (refl, ap or_empty e);
}

same_texts : List (List ℕ) → List (List ℕ) → Bool
same_texts [] [] = true
same_texts [] (y ∷ ys) = false
same_texts (x ∷ xs) [] = false
same_texts (x ∷ xs) (y ∷ ys) = bytes_eq x y && same_texts xs ys

next : ℤ → ℤ
next (pos n) = pos (suc n)
next (negsuc n) = negsuc n

index_of : List (List ℕ) → List ℕ → ℤ
index_of [] x = negsuc 0
index_of (y ∷ ys) x = let rest = index_of ys x in if bytes_eq x y then pos 0 else next rest

join : List (List ℕ) → List ℕ → List ℕ
join [] separator = []
join (x ∷ []) separator = x
join (x ∷ y ∷ xs) separator = x ++ separator ++ join (y ∷ xs) separator

same_texts_lem : (xs ys : List (List ℕ)) → same_texts xs ys ≡ true → xs ≡ ys
unfolding same_texts
same_texts_lem [] [] e = refl
same_texts_lem [] (y ∷ ys) e = absurd (cc)
same_texts_lem (x ∷ xs) [] e = absurd (cc)
same_texts_lem (x ∷ xs) (y ∷ ys) e = ground (arith, bytes_eq→eq x y, same_texts_lem xs ys)

same_texts_refl : (xs : List (List ℕ)) → same_texts xs xs ≡ true
unfolding same_texts
same_texts_refl [] = refl
same_texts_refl (x ∷ xs) = ground (arith, bytes_eq_refl x, same_texts_refl xs)

index_of_lem :
    (xs : List (List ℕ)) (x : List ℕ)
    → 0 < count x xs
    → (i : ℕ) × (index_of xs x ≡ pos i) × (get_elem? xs i ≡ some x)
unfolding index_of next count
index_of_lem [] x h = absurd (omega (arith, h))
index_of_lem (y ∷ ys) x h = elim (Bool-cases (bytes_eq x y)) [
  | inl e ↦ (0, simp e, ap some (sym (bytes_eq→eq x y e)))
  | inr e ↦
      let (i, at, found) = index_of_lem ys x (ground (arith, h, e)) in
      (suc i, ground (arith, e, at), found)
]

abbrev lists : ListOps
lists = record { same = same_texts; index_of = index_of; join_into_string = join }

lists-ListLaws : ListLaws lists
lists-ListLaws = record {
  same_refl = same_texts_refl;
  same_lem = same_texts_lem;
  index_of_lem = index_of_lem;
}

abbrev gui : Gui
gui = record { qr = diagonal; images = pictures; combo = boxes; lists = lists }

abbrev Plugin : Type 0
Plugin = Processor counting hundredths plain_json strings texts

abbrev at_home : Plugin
at_home = record {
  engine = record idle {
    streaming = live;
    addresses = bytes "192.168.1.7" ∷ bytes "10.0.0.4" ∷ [];
  };
  start_failed = false;
}

abbrev unstarted : Plugin
unstarted = record {
  engine = record idle {
    streaming = record live { settings = default_settings; server_running = false };
  };
  start_failed = false;
}

-- The same plugin with another format, as a project may restore it.
abbrev restored : Plugin
restored = record unstarted {
  engine = record unstarted.engine {
    streaming = record unstarted.engine.streaming {
      settings = record default_settings { format = pcm24; preferred_port = 8000 };
    };
  };
}

abbrev window : Plugin → Editor counting hundredths plain_json strings texts gui
window p = new_editor counting hundredths plain_json strings texts gui 0 p

stale_format_example :
    (push_settings_to_engine counting hundredths plain_json strings texts gui
      (packet_chosen counting hundredths plain_json strings texts gui 3 (
        watch counting hundredths plain_json strings texts gui
          ((0, restored) ∷ [])
          (window unstarted)))
      restored).0.engine.streaming.settings
    ≡ record default_settings { frames_per_packet = 1024; preferred_port = 8000 }
stale_format_example =
    stale_format counting hundredths plain_json strings texts gui boxes-ComboLaws 0 unstarted
      restored ((0, restored) ∷ []) 3 tt (inr (inr refl))

-- Opened on the plugin before its start, which streams for a while and stops again.
abbrev after_streaming : Editor counting hundredths plain_json strings texts gui
after_streaming =
    watch counting hundredths plain_json strings texts gui ((0, at_home) ∷ (0, unstarted) ∷ [])
      (window unstarted)

watch-follows_url_example :
    (after_streaming.qr_code.encoded ≡ [])
    × Shows diagonal pictures pictures-ImageLaws [] after_streaming.qr_code.image
    × (copy_clicked counting hundredths plain_json strings texts gui after_streaming ≡ none)
    × (after_streaming.url_label ≡ dash)
unfolding last_url_of ever_url get_listen_url get_preferred_address
watch-follows_url_example =
    watch-follows_url counting hundredths plain_json strings texts gui pictures-ImageLaws 0
      unstarted ((0, at_home) ∷ (0, unstarted) ∷ [])

address_changed_lem_example :
    let r = address_changed counting hundredths plain_json strings texts gui 0 at_home (
      address_selected counting hundredths plain_json strings texts gui boxes-ComboLaws
        lists-ListLaws strings-StringLaws 2
        (window at_home)) in
    (preferred_address_of counting hundredths plain_json strings texts r.0.engine
      ≡ bytes "10.0.0.4")
    × (listen_url counting hundredths plain_json strings texts r.0.engine
        ≡ bytes "http://10.0.0.4:0/#t=ab")
    × (r.1.last_url ≡ listen_url counting hundredths plain_json strings texts r.0.engine)
    × (boxes.get_text r.1.address_box ≡ bytes "10.0.0.4")
unfolding decimal_from
address_changed_lem_example =
    address_changed_lem counting hundredths plain_json strings texts gui boxes-ComboLaws
      lists-ListLaws strings-StringLaws 0 at_home (window at_home) 1 (bytes "10.0.0.4")
      (new_editor-InStep counting hundredths plain_json strings texts gui boxes-ComboLaws
        lists-ListLaws strings-StringLaws 0 at_home)
      refl (λ e. let same = ap (bytes_eq (bytes "10.0.0.4")) e in cc)
