-- ===== src/Http/Lines.antt =====
-- The lines of a request, its words and its fields' values, as `parseRequest` reads them.
use phonepostmix.Base.{
  ℕ, ◌≡◌, ◌≢◌, refl, sym, ap, ◌∙◌, arith, Bool, true, false, not, ◌&&◌, ◌==◌, bytes_eq, no_text,
  Bool-cases, inl, inr, if◌then◌else◌, some, List, [], ◌∷◌, ◌++◌, append_assoc, append-nil, take,
  map,
}
use phonepostmix.Http.{is_blank, is_space, trim, trim_front, trim_back, crlf, head_of, items, words}
use phonepostmix.Http.Requests.{without}
use phonepostmix.Http.Text.{after, head_of-starts, head_of-goes_on}

-- Each line with the end of line behind it.
unfoldable pub print_lines : List (List ℕ) → List ℕ
print_lines [] = []
print_lines (l ∷ lines) = l ++ 13 ∷ 10 ∷ print_lines lines

-- No line is empty or has a byte of the end of line.
unfoldable pub AllPlain : List (List ℕ) → Type 0
AllPlain [] = Unit {0}
AllPlain (l ∷ lines) = (l ≢ []) × (without 13 l ≡ true) × (without 10 l ≡ true) × AllPlain lines

without-cons :
    (stop c : ℕ) (l : List ℕ)
    → without stop (c ∷ l) ≡ true
    → ((c == stop) ≡ false) × (without stop l ≡ true)
without-cons stop c l free = elim (Bool-cases (c == stop)) [
  | inl same ↦
      absurd (let bad = sym (ap (λ b. if b then false else without stop l) same) ∙ free in cc)
  | inr apart ↦ (apart, sym (ap (λ b. if b then false else without stop l) apart) ∙ free)
]

head_of-line :
    (l rest h : List ℕ)
    → without 13 l ≡ true
    → head_of (13 ∷ 10 ∷ rest) ≡ some h
    → head_of (l ++ 13 ∷ 10 ∷ rest) ≡ some (l ++ h)
head_of-line [] rest h free e = e
head_of-line (c ∷ l) rest h free e =
    let (apart, more) = without-cons 13 c l free in
    head_of-goes_on c (l ++ 13 ∷ 10 ∷ rest) (ground (arith, apart))
    ∙ ap (after c) (head_of-line l rest h more e)

-- Behind an end of line, where another line follows.
head_of-next :
    (c : ℕ) (s h : List ℕ)
    → (c == 13) ≡ false
    → head_of (c ∷ s) ≡ some h
    → head_of (13 ∷ 10 ∷ c ∷ s) ≡ some (13 ∷ 10 ∷ h)
head_of-next c s h apart e =
    head_of-goes_on 13 (10 ∷ c ∷ s) (ap (λ b. b && bytes_eq (take 1 s) (10 ∷ [])) apart)
    ∙ ap (after 13) (head_of-goes_on 10 (c ∷ s) refl ∙ ap (after 10) e)

pub head_of-print_lines :
    (l : List ℕ) (lines : List (List ℕ))
    → AllPlain (l ∷ lines)
    → head_of (print_lines (l ∷ lines) ++ crlf) ≡ some (print_lines (l ∷ lines))
unfolding AllPlain print_lines
head_of-print_lines l [] (some_text, no_cr, no_lf, _) =
    ap head_of (append_assoc l crlf crlf)
    ∙ head_of-line l crlf crlf no_cr (head_of-starts 13 (10 ∷ crlf) refl)
head_of-print_lines l ([] ∷ lines) (some_text, no_cr, no_lf, more) = absurd (more.0 refl)
head_of-print_lines l ((c ∷ m) ∷ lines) (some_text, no_cr, no_lf, more) =
    let rest = print_lines ((c ∷ m) ∷ lines) in
    ap head_of (append_assoc l (13 ∷ 10 ∷ rest) crlf)
    ∙ head_of-line l (rest ++ crlf) (13 ∷ 10 ∷ rest) no_cr (
        head_of-next c (m ++ 13 ∷ 10 ∷ print_lines lines ++ crlf) rest
          (without-cons 13 c m more.1).0 (head_of-print_lines (c ∷ m) lines more))

items-line :
    (item l rest : List ℕ)
    → without 10 l ≡ true
    → items 10 item (l ++ 13 ∷ 10 ∷ rest) ≡ (item ++ (l ++ 13 ∷ [])) ∷ items 10 [] rest
unfolding items
items-line item [] rest free = refl
items-line item (c ∷ l) rest free =
    let (apart, more) = without-cons 10 c l free in
    ap
      (λ b.
        if b
        then item ∷ items 10 [] (l ++ 13 ∷ 10 ∷ rest)
        else items 10 (item ++ c ∷ []) (l ++ 13 ∷ 10 ∷ rest))
      apart
    ∙ items-line (item ++ c ∷ []) l rest more
    ∙ ap (λ x. x ∷ items 10 [] rest) (append_assoc item (c ∷ []) (l ++ 13 ∷ []))

abbrev pub ended : List ℕ → List ℕ
ended l = l ++ 13 ∷ []

pub items-print_lines :
    (lines : List (List ℕ)) → AllPlain lines → items 10 [] (print_lines lines) ≡ map ended lines
unfolding AllPlain print_lines items
items-print_lines [] plain = refl
items-print_lines (l ∷ lines) (some_text, no_cr, no_lf, more) =
    items-line [] l (print_lines lines) no_lf ∙ ap (λ x. ended l ∷ x) (items-print_lines lines more)

-- No byte of the text is a space.
unfoldable pub solid : List ℕ → Bool
solid [] = true
solid (c ∷ s) = not (is_space c) && solid s

solid-cons : (c : ℕ) (s : List ℕ) → solid (c ∷ s) ≡ true → (is_space c ≡ false) × (solid s ≡ true)
unfolding solid
solid-cons c s free = go (is_space c) refl
  where
    go : (b : Bool) → is_space c ≡ b → (is_space c ≡ false) × (solid s ≡ true)
    go true e = absurd (let bad = sym (ap (λ x. not x && solid s) e) ∙ free in cc)
    go false e = (e, sym (ap (λ x. not x && solid s) e) ∙ free)

pub words-solid :
    (word w s : List ℕ) (c : ℕ)
    → solid w ≡ true
    → is_space c ≡ true
    → word ++ w ≢ []
    → words word (w ++ c ∷ s) ≡ (word ++ w) ∷ words [] s
unfolding words
words-solid word [] s c free space some_text =
    ap
      (λ b.
        if b
        then (if bytes_eq word [] then words [] s else word ∷ words [] s)
        else words (word ++ c ∷ []) s)
      space
    ∙ ap (λ b. if b then words [] s else word ∷ words [] s)
        (no_text word (λ e. some_text (append-nil word ∙ e)))
    ∙ ap (λ x. x ∷ words [] s) (sym (append-nil word))
words-solid word (d ∷ w) s c free space some_text =
    let (apart, more) = solid-cons d w free in
    let rest = w ++ c ∷ s in
    ap
      (λ b.
        if b
        then (if bytes_eq word [] then words [] rest else word ∷ words [] rest)
        else words (word ++ d ∷ []) rest)
      apart
    ∙ words-solid (word ++ d ∷ []) w s c more space
        (λ e. some_text (sym (append_assoc word (d ∷ []) w) ∙ e))
    ∙ ap (λ x. x ∷ words [] s) (append_assoc word (d ∷ []) w)

pub solid-without :
    (stop : ℕ) (w : List ℕ) → is_space stop ≡ true → solid w ≡ true → without stop w ≡ true
solid-without stop [] space free = refl
solid-without stop (c ∷ w) space free =
    let (apart, more) = solid-cons c w free in
    ground (arith, solid-without stop w space more, apart, space)

pub without-append :
    (stop : ℕ) (a b : List ℕ)
    → without stop a ≡ true
    → without stop b ≡ true
    → without stop (a ++ b) ≡ true
without-append stop [] b free more = more
without-append stop (c ∷ a) b free more =
    let (apart, rest) = without-cons stop c a free in
    ap (λ x. if x then false else without stop (a ++ b)) apart ∙ without-append stop a b rest more

trim_back-end : (s : List ℕ) → trim_back (s ++ 13 ∷ []) ≡ trim_back s
unfolding trim_back
trim_back-end [] = refl
trim_back-end (c ∷ s) =
    ap (λ rest. if is_blank c && bytes_eq rest [] then [] else c ∷ rest) (trim_back-end s)

abbrev pub starts_blank : List ℕ → Bool
starts_blank [] = false
starts_blank (c ∷ s) = is_blank c

-- The text neither begins nor ends with a blank.
abbrev pub IsTrimmed : List ℕ → Type 0
IsTrimmed s = (starts_blank s ≡ false) × (trim_back s ≡ s)

pub trim-value : (v : List ℕ) → IsTrimmed v → trim (32 ∷ v ++ 13 ∷ []) ≡ v
unfolding trim trim_front trim_back
trim-value [] (front, back) = refl
trim-value (c ∷ v) (front, back) =
    ap (λ b. trim_back (if b then trim_front (v ++ 13 ∷ []) else c ∷ (v ++ 13 ∷ []))) front
    ∙ trim_back-end (c ∷ v)
    ∙ back
