-- ===== src/Engine/Addresses/Order.antt =====
-- The order of the addresses.
use phonepostmix.Base.{
  ℕ, suc, ◌+◌, ◌≤◌, ◌==◌, ◌≡◌, refl, ap, ◌∙◌, arith, Bool, true, false, bytes_eq, bytes_eq→eq, ltb,
  ltb→lt, ltb→le, ◌||◌, ◌&&◌, if◌then◌else◌, if_intro, List, [], ◌∷◌, ◌++◌,
}
use phonepostmix.Engine.Addresses.{
  IpAddress, StringOps, is_useful_address, address_priority, find_useful, insert, stable_sort,
  refresh_addresses,
}

-- How often an address is in a list.
unfoldable pub count : List ℕ → List (List ℕ) → ℕ
count x [] = 0
count x (y ∷ ys) = let rest = count x ys in if bytes_eq x y then suc rest else rest

count-append : (x : List ℕ) (xs ys : List (List ℕ)) → count x (xs ++ ys) ≡ count x xs + count x ys
unfolding count
count-append x [] ys = omega arith
count-append x (z ∷ xs) ys = ground (arith, count-append x xs ys)

-- The documented behaviour of juce::StringArray.
pub record StringLaws (S : StringOps) : Type 0 where
  pub contains_lem : (xs : List (List ℕ)) (x : List ℕ) → S.contains xs x ≡ ltb 0 (count x xs)
  pub add_lem :
      (xs : List (List ℕ)) (x : List ℕ)
      → S.add_if_not_already_there xs x ≡ (if ltb 0 (count x xs) then xs else xs ++ x ∷ [])

module _ (S : StringOps) where
  -- A useful address has the text `x`.
  unfoldable pub is_offered : List ℕ → List IpAddress → Bool
  is_offered x [] = false
  is_offered x (a ∷ all) = (is_useful_address S a && bytes_eq x a.text) || is_offered x all

  unfoldable pub with_priority : ℕ → List (List ℕ) → List (List ℕ)
  with_priority p [] = []
  with_priority p (x ∷ xs) =
      let rest = with_priority p xs in if address_priority S x == p then x ∷ rest else rest

  -- Every address has at least the priority number `low`, and no less than the one before.
  unfoldable pub Ascends : ℕ → List (List ℕ) → Type 0
  Ascends low [] = Unit
  Ascends low (x ∷ xs) = (low ≤ address_priority S x) × Ascends (address_priority S x) xs

  Ascends-weaken :
      (low lower : ℕ) (xs : List (List ℕ)) → lower ≤ low → Ascends low xs → Ascends lower xs
  unfolding Ascends
  Ascends-weaken low lower [] h a = tt
  Ascends-weaken low lower (x ∷ xs) h a = (omega (arith, a.0), a.1)

  insert-Ascends :
      (low : ℕ) (x : List ℕ) (xs : List (List ℕ))
      → low ≤ address_priority S x
      → Ascends low xs
      → Ascends low (insert S x xs)
  unfolding Ascends insert
  insert-Ascends low x [] h a = (h, tt)
  insert-Ascends low x (y ∷ xs) h a =
      if_intro (Ascends low) (ltb (address_priority S y) (address_priority S x))
        (λ e. (a.0, insert-Ascends (address_priority S y) x xs (omega (arith, ltb→lt _ _ e)) a.1))
        (λ e. (h, (ltb→le _ _ e, a.1)))

  stable_sort-Ascends : (xs : List (List ℕ)) → Ascends 0 (stable_sort S xs)
  unfolding stable_sort Ascends
  stable_sort-Ascends [] = tt
  stable_sort-Ascends (x ∷ xs) =
      insert-Ascends 0 x (stable_sort S xs) (omega arith) (stable_sort-Ascends xs)

  insert-count : (z x : List ℕ) (xs : List (List ℕ)) → count z (insert S x xs) ≡ count z (x ∷ xs)
  unfolding count insert
  insert-count z x [] = refl
  insert-count z x (y ∷ xs) = ground (arith, insert-count z x xs)

  stable_sort-count : (z : List ℕ) (xs : List (List ℕ)) → count z (stable_sort S xs) ≡ count z xs
  unfolding count stable_sort
  stable_sort-count z [] = refl
  stable_sort-count z (x ∷ xs) =
      insert-count z x (stable_sort S xs)
      ∙ ap (λ n. if bytes_eq z x then suc n else n) (stable_sort-count z xs)

  insert-with_priority :
      (p : ℕ) (x : List ℕ) (xs : List (List ℕ))
      → with_priority p (insert S x xs) ≡ with_priority p (x ∷ xs)
  unfolding with_priority insert
  insert-with_priority p x [] = refl
  insert-with_priority p x (y ∷ xs) = ground (arith, insert-with_priority p x xs)

  stable_sort-with_priority :
      (p : ℕ) (xs : List (List ℕ)) → with_priority p (stable_sort S xs) ≡ with_priority p xs
  unfolding with_priority stable_sort
  stable_sort-with_priority p [] = refl
  stable_sort-with_priority p (x ∷ xs) =
      insert-with_priority p x (stable_sort S xs)
      ∙ ap (λ r. if address_priority S x == p then x ∷ r else r) (stable_sort-with_priority p xs)

  module _ (laws : StringLaws S) where
    added-count :
        (x address : List ℕ) (found : List (List ℕ))
        → count x found ≤ 1
        → count x (S.add_if_not_already_there found address)
          ≡ (if bytes_eq x address then 1 else count x found)
    unfolding count
    added-count x address found h =
        ap (count x) (laws.add_lem found address) ∙ by_eq (bytes_eq x address) refl
      where
        by_eq :
            (b : Bool)
            → bytes_eq x address ≡ b
            → count x (if ltb 0 (count address found) then found else found ++ address ∷ [])
              ≡ (if b then 1 else count x found)
        by_eq true e = ground (
          arith,
          ap (λ y. count y found) (bytes_eq→eq x address e),
          count-append x found (address ∷ []),
          e,
        )
        by_eq false e = ground (arith, count-append x found (address ∷ []), e)

    find_useful-count :
        (x : List ℕ) (all : List IpAddress) (found : List (List ℕ))
        → count x found ≤ 1
        → count x (find_useful S all found)
          ≡ (if ltb 0 (count x found) || is_offered x all then 1 else 0)
    unfolding find_useful is_offered count
    find_useful-count x [] found h = ground arith
    find_useful-count x (a ∷ all) found h =
        let added = S.add_if_not_already_there found a.text in
        let e = added-count x a.text found h in
        let small : count x added ≤ 1 = ground (arith, e) in
        ground (arith, e, find_useful-count x all added small, find_useful-count x all found h)

    -- Where juce::StringArray does what is documented, the addresses offered are the useful ones of
    -- the system's, each once, in the order of their priority; those of the same priority keep the
    -- order in which they were found.
    pub refresh_addresses_lem :
        (all : List IpAddress)
        → Ascends 0 (refresh_addresses S all)
          × ((x : List ℕ) → count x (refresh_addresses S all) ≡ (if is_offered x all then 1 else 0))
          × ((p : ℕ)
              → with_priority p (refresh_addresses S all) ≡ with_priority p (find_useful S all []))
    unfolding refresh_addresses count
    refresh_addresses_lem all = (
      stable_sort-Ascends (find_useful S all []),
      λ x. stable_sort-count x (find_useful S all []) ∙ find_useful-count x all [] (omega arith),
      λ p. stable_sort-with_priority p (find_useful S all []),
    )
