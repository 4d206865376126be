-- ===== src/Editor/Items.antt =====
-- plugin/PluginEditor.cpp: what JUCE's boxes and string arrays do, and the boxes with the editor's items.
use phonepostmix.Base.{
  ℕ, zero, suc, ◌+◌, ◌<◌, ◌==◌, ◌≡◌, refl, sym, ap, ◌∙◌, subst, arith, true, bytes_eq_refl, ◌⊎◌,
  inl, inr, if◌then◌else◌, Option, none, some, List, [], ◌∷◌, ◌++◌, append_assoc, append-nil,
  get_elem?,
}
use phonepostmix.Base.Int.{pos}
use phonepostmix.Editor.{ComboOps, ListOps, add_items}
use phonepostmix.Engine.Addresses.Order.{count}

unfoldable pub find_text : ℕ → List (ℕ × List ℕ) → Option (List ℕ)
find_text id [] = none
find_text id ((i, t) ∷ items) = let rest = find_text id items in if i == id then some t else rest

-- The documented behaviour of juce::ComboBox: `items` are its ids and texts, and selecting the id of an
-- item shows that item's text.
pub record ComboLaws (C : ComboOps) : Type 0 where
  pub items : C.Box → List (ℕ × List ℕ)
  pub items_new : items C.new_box ≡ []
  pub items_clear : (b : C.Box) → items (C.clear b) ≡ []
  pub items_add :
      (b : C.Box) (t : List ℕ) (id : ℕ) → items (C.add_item b t id) ≡ items b ++ (id, t) ∷ []
  pub items_select : (b : C.Box) (id : ℕ) → items (C.set_selected_id id b) ≡ items b
  pub select :
      (b : C.Box) (t : List ℕ) (id : ℕ)
      → find_text id (items b) ≡ some t
      → (C.get_selected_id (C.set_selected_id id b) ≡ id)
        × (C.get_text (C.set_selected_id id b) ≡ t)

-- The documented behaviour of juce::StringArray's `==` and `indexOf`.
pub record ListLaws (L : ListOps) : Type 0 where
  pub same_refl : (xs : List (List ℕ)) → L.same xs xs ≡ true
  pub same_lem : (xs ys : List (List ℕ)) → L.same xs ys ≡ true → xs ≡ ys
  pub index_of_lem :
      (xs : List (List ℕ)) (x : List ℕ)
      → 0 < count x xs
      → (i : ℕ) × (L.index_of xs x ≡ pos i) × (get_elem? xs i ≡ some x)

-- The items with their ids, which count from `id`.
unfoldable pub numbered : ℕ → List (List ℕ) → List (ℕ × List ℕ)
numbered id [] = []
numbered id (x ∷ xs) = (id, x) ∷ numbered (suc id) xs

pub find_text-numbered :
    (xs : List (List ℕ)) (id i : ℕ) → find_text (id + i) (numbered id xs) ≡ get_elem? xs i
unfolding find_text numbered
find_text-numbered [] id i = refl
find_text-numbered (x ∷ xs) id zero = ground arith
find_text-numbered (x ∷ xs) id (suc i) =
    let shift : suc id + i ≡ id + suc i = omega arith in
    subst (λ k. find_text k (numbered id (x ∷ xs)) ≡ get_elem? xs i) shift
      (ground (arith, find_text-numbered xs (suc id) i))

pub count-elem :
    (xs : List (List ℕ)) (i : ℕ) (x : List ℕ) → get_elem? xs i ≡ some x → 0 < count x xs
unfolding count
count-elem [] i x e = absurd (cc)
count-elem (y ∷ xs) zero x e =
    let same : y ≡ x = cc in
    subst (λ z. 0 < count x (z ∷ xs)) (sym same) (ground (arith, bytes_eq_refl x))
count-elem (y ∷ xs) (suc i) x e = ground (arith, count-elem xs i x e)

pub items-add_items :
    (C : ComboOps) (laws : ComboLaws C) (xs : List (List ℕ)) (id : ℕ) (b : C.Box)
    → laws.items (add_items C xs id b) ≡ laws.items b ++ numbered id xs
unfolding add_items numbered
items-add_items C laws [] id b = sym (append-nil (laws.items b))
items-add_items C laws (x ∷ xs) id b =
    items-add_items C laws xs (suc id) (C.add_item b x id)
    ∙ ap (λ l. l ++ numbered (suc id) xs) (laws.items_add b x id)
    ∙ append_assoc (laws.items b) ((id, x) ∷ []) (numbered (suc id) xs)

module _ (C : ComboOps) (laws : ComboLaws C) where
  pub items_three :
      (t u v : List ℕ)
      → laws.items (C.add_item (C.add_item (C.add_item C.new_box t 1) u 2) v 3)
        ≡ (1, t) ∷ (2, u) ∷ (3, v) ∷ []
  items_three t u v =
      laws.items_add (C.add_item (C.add_item C.new_box t 1) u 2) v 3
      ∙ ap (λ l. l ++ (3, v) ∷ [])
          (laws.items_add (C.add_item C.new_box t 1) u 2
            ∙ ap (λ l. l ++ (2, u) ∷ [])
                (laws.items_add C.new_box t 1 ∙ ap (λ l. l ++ (1, t) ∷ []) laws.items_new))

  text_of_three :
      (t u v : List ℕ) (id : ℕ)
      → (id ≡ 1) ⊎ (id ≡ 2) ⊎ (id ≡ 3)
      → (x : List ℕ) × (find_text id ((1, t) ∷ (2, u) ∷ (3, v) ∷ []) ≡ some x)
  unfolding find_text
  text_of_three t u v id (inl e) = (t, ground arith)
  text_of_three t u v id (inr (inl e)) = (u, ground arith)
  text_of_three t u v id (inr (inr e)) = (v, ground arith)

  pub selected_three :
      (b : C.Box) (t u v : List ℕ) (id : ℕ)
      → laws.items b ≡ (1, t) ∷ (2, u) ∷ (3, v) ∷ []
      → (id ≡ 1) ⊎ (id ≡ 2) ⊎ (id ≡ 3)
      → C.get_selected_id (C.set_selected_id id b) ≡ id
  selected_three b t u v id e h =
      let (x, found) = text_of_three t u v id h in
      (laws.select b x id (ap (find_text id) e ∙ found)).0
