-- ===== src/Http/Text.antt =====
-- Where the head of a request ends.
use phonepostmix.Base.{
  ℕ, ◌≤◌, ◌≡◌, refl, sym, ap, ◌∙◌, arith, true, false, bytes_eq, bytes_eq→eq, if◌then◌else◌,
  Bool-cases, inl, inr, Option, none, some, List, [], ◌∷◌, ◌++◌, length, length-take, take,
  take-append_of_le,
}
use phonepostmix.Http.{blank_line, head_of}

-- A blank line has its four bytes.
four_bytes : (text : List ℕ) → bytes_eq (take 4 text) blank_line ≡ true → 4 ≤ length text
four_bytes text h =
    omega (arith, length-take 4 text, ap length (bytes_eq→eq (take 4 text) blank_line h))

abbrev pub after : ℕ → Option (List ℕ) → Option (List ℕ)
after c rest = elim rest [ none ↦ none | some h ↦ some (c ∷ h) ]

head_of-cons :
    (c : ℕ) (s : List ℕ)
    → head_of (c ∷ s)
      ≡ (if bytes_eq (take 4 (c ∷ s)) blank_line then some (13 ∷ 10 ∷ []) else after c (head_of s))
unfolding head_of
head_of-cons c s = refl

pub head_of-starts :
    (c : ℕ) (s : List ℕ)
    → bytes_eq (take 4 (c ∷ s)) blank_line ≡ true
    → head_of (c ∷ s) ≡ some (13 ∷ 10 ∷ [])
head_of-starts c s h = head_of-cons c s ∙ simp h

pub head_of-goes_on :
    (c : ℕ) (s : List ℕ)
    → bytes_eq (take 4 (c ∷ s)) blank_line ≡ false
    → head_of (c ∷ s) ≡ after c (head_of s)
head_of-goes_on c s h = head_of-cons c s ∙ simp h

-- A head that is found where the text goes on is found in the rest.
head_of-tail :
    (c : ℕ) (s h : List ℕ)
    → bytes_eq (take 4 (c ∷ s)) blank_line ≡ false
    → head_of (c ∷ s) ≡ some h
    → (k : List ℕ) × (head_of s ≡ some k) × (h ≡ c ∷ k)
head_of-tail c s h open_yet found = go (head_of s) refl
  where
    go : (o : Option (List ℕ)) → head_of s ≡ o → (k : List ℕ) × (head_of s ≡ some k) × (h ≡ c ∷ k)
    go none e =
        let bad : none ≡ some h = sym (head_of-goes_on c s open_yet ∙ ap (after c) e) ∙ found in
        absurd (cc bad)
    go (some k) e =
        let same : some (c ∷ k) ≡ some h =
          sym (head_of-goes_on c s open_yet ∙ ap (after c) e) ∙ found in
        (k, e, cc same)

head_of-long : (text h : List ℕ) → head_of text ≡ some h → 4 ≤ length text
head_of-long [] h found = unfold head_of in cc found
head_of-long (c ∷ s) h found = elim (Bool-cases (bytes_eq (take 4 (c ∷ s)) blank_line)) [
  | inl ends ↦ four_bytes (c ∷ s) ends
  | inr open_yet ↦
      let (k, e, _) = head_of-tail c s h open_yet found in omega (arith, head_of-long s k e)
]

pub head_of-append :
    (text more h : List ℕ) → head_of text ≡ some h → head_of (text ++ more) ≡ some h
head_of-append [] more h found = unfold head_of in cc found
head_of-append (c ∷ s) more h found =
    let long : 4 ≤ length (c ∷ s) = head_of-long (c ∷ s) h found in
    let same : take 4 (c ∷ (s ++ more)) ≡ take 4 (c ∷ s) = take-append_of_le 4 (c ∷ s) more long in
    let tested = ap (λ x. bytes_eq x blank_line) same in
    elim (Bool-cases (bytes_eq (take 4 (c ∷ s)) blank_line)) [
      | inl ends ↦
          head_of-starts c (s ++ more) (tested ∙ ends) ∙ sym (head_of-starts c s ends) ∙ found
      | inr open_yet ↦
          let (k, e, whole) = head_of-tail c s h open_yet found in
          head_of-goes_on c (s ++ more) (tested ∙ open_yet)
          ∙ ap (after c) (head_of-append s more k e)
          ∙ ap some (sym whole)
    ]
