-- ===== src/Http/Requests.antt =====
-- `parseRequest` and the headers it finds.
use phonepostmix.Base.{
  ℕ, ◌≡◌, refl, sym, ap, ◌∙◌, subst, arith, Bool, true, false, ◌==◌, bytes_eq, bytes_eq→eq,
  Bool-cases, inl, inr, bytes_eq_refl, ==_refl, if◌then◌else◌, Option, none, some, List, [], ◌∷◌,
  ◌++◌,
}
use phonepostmix.Http.{
  Request, to_lower, trim, header, assign, find_header, head_of, items, parse_lines, parse_request,
  read_headers, split_at_first,
}
use phonepostmix.Http.Text.{head_of-append}

abbrev pub parse_head : Option (List ℕ) → Option Request
parse_head o = elim o [ none ↦ none | some h ↦ parse_lines (items 10 [] h) ]

pub parse_request-head : (text : List ℕ) → parse_request text ≡ parse_head (head_of text)
unfolding parse_request
parse_request-head text = refl

-- Once the head of a request has come, whatever comes behind it does not change how it is parsed: the
-- result does not depend on where the network cuts the bytes behind the head.
pub parse_request-append :
    (text more : List ℕ) (r : Request)
    → parse_request text ≡ some r
    → parse_request (text ++ more) ≡ some r
parse_request-append text more r parsed = go (head_of text) refl
  where
    go : (o : Option (List ℕ)) → head_of text ≡ o → parse_request (text ++ more) ≡ some r
    go none e =
        let bad : none ≡ some r = sym (parse_request-head text ∙ ap parse_head e) ∙ parsed in
        absurd (cc bad)
    go (some h) e =
        parse_request-head (text ++ more)
        ∙ ap parse_head (head_of-append text more h e ∙ sym e)
        ∙ sym (parse_request-head text)
        ∙ parsed

-- No byte of the list is `stop`.
abbrev pub without : ℕ → List ℕ → Bool
without stop [] = true
without stop (c ∷ s) = if c == stop then false else without stop s

pub split_at_first-append :
    (stop : ℕ) (name value : List ℕ)
    → without stop name ≡ true
    → split_at_first stop (name ++ stop ∷ value) ≡ some (name, value)
unfolding split_at_first
split_at_first-append stop [] value free = simp (==_refl stop)
split_at_first-append stop (c ∷ name) value free =
    ground (arith, split_at_first-append stop name value)

read_headers-append :
    (lines rest : List (List ℕ)) (found : List (List ℕ × List ℕ))
    → read_headers (lines ++ rest) found ≡ read_headers rest (read_headers lines found)
unfolding read_headers
read_headers-append [] rest found = refl
read_headers-append (line ∷ lines) rest found = read_headers-append lines rest _

abbrev pub with_header : Option (List ℕ × List ℕ) → List (List ℕ × List ℕ) → List (List ℕ × List ℕ)
with_header o found = elim o [
  | none ↦ found
  | some (name, value) ↦ assign (to_lower (trim name)) (trim value) found
]

read_headers-one :
    (line : List ℕ) (found : List (List ℕ × List ℕ))
    → read_headers (line ∷ []) found ≡ with_header (split_at_first 58 line) found
unfolding read_headers
read_headers-one line found = refl

read_headers-last :
    (name value : List ℕ) (found : List (List ℕ × List ℕ))
    → without 58 name ≡ true
    → read_headers ((name ++ 58 ∷ value) ∷ []) found
      ≡ assign (to_lower (trim name)) (trim value) found
unfolding read_headers
read_headers-last name value found free =
    read_headers-one (name ++ 58 ∷ value) found
    ∙ ap (λ o. with_header o found) (split_at_first-append 58 name value free)

one_at_a_time :
    {A : Type 0} (k n : Bool) (old value rest : A)
    → (k ≡ true → n ≡ false)
    → (if k then old else (if n then value else rest))
      ≡ (if n then value else (if k then old else rest))
one_at_a_time true true old value rest h = absurd (let bad = h refl in cc)
one_at_a_time true false old value rest h = refl
one_at_a_time false n old value rest h = refl

twice :
    {A : Type 0} (b : Bool) (old value rest : A)
    → (if b then value else rest) ≡ (if b then value else (if b then old else rest))
twice true old value rest = refl
twice false old value rest = refl

pub apart_keys :
    (key name query : List ℕ)
    → bytes_eq key name ≡ false
    → bytes_eq key query ≡ true
    → bytes_eq name query ≡ false
apart_keys key name query apart same = elim (Bool-cases (bytes_eq name query)) [
  | inl other ↦ absurd (
      let both = bytes_eq→eq key query same ∙ sym (bytes_eq→eq name query other) in
      let bad = sym (ap (bytes_eq key) both) ∙ bytes_eq_refl key in cc)
  | inr e ↦ e
]

-- What an assignment changes is the value at its name.
pub find_header-assign :
    (query name value : List ℕ) (found : List (List ℕ × List ℕ))
    → find_header query (assign name value found)
      ≡ (if bytes_eq name query then value else find_header query found)
unfolding find_header assign
find_header-assign query name value [] = refl
find_header-assign query name value ((key, old) ∷ found) =
    let rest = find_header query found in
    let more = find_header-assign query name value found in
    elim (Bool-cases (bytes_eq key name)) [
      | inl same ↦
          ap
            (λ b.
              find_header query
                (if b then (key, value) ∷ found else (key, old) ∷ assign name value found))
            same
          ∙ subst
              (λ (n : List ℕ).
                (if bytes_eq key query then value else rest)
                ≡ (if bytes_eq n query then value else (if bytes_eq key query then old else rest)))
              (bytes_eq→eq key name same) (twice (bytes_eq key query) old value rest)
      | inr apart ↦
          ap
            (λ b.
              find_header query
                (if b then (key, value) ∷ found else (key, old) ∷ assign name value found))
            apart
          ∙ ap (λ x. if bytes_eq key query then old else x) more
          ∙ one_at_a_time (bytes_eq key query) (bytes_eq name query) old value rest
              (apart_keys key name query apart)
    ]

-- A header line, the last of its name, is found under that name in every spelling of its letters, and
-- its value is what stands behind the first colon, trimmed.
pub header_lem :
    (r : Request) (lines : List (List ℕ)) (name value query : List ℕ)
    → without 58 name ≡ true
    → r.headers ≡ read_headers (lines ++ (name ++ 58 ∷ value) ∷ []) []
    → to_lower query ≡ to_lower (trim name)
    → header r query ≡ trim value
unfolding header
header_lem r lines name value query free from same =
    let all =
      from
      ∙ read_headers-append lines ((name ++ 58 ∷ value) ∷ []) []
      ∙ read_headers-last name value (read_headers lines []) free in
    ap (find_header (to_lower query)) all
    ∙ find_header-assign (to_lower query) (to_lower (trim name)) (trim value)
        (read_headers lines [])
    ∙ ap (λ b. if b then trim value else find_header (to_lower query) (read_headers lines []))
        (ap (bytes_eq (to_lower (trim name))) same ∙ bytes_eq_refl (to_lower (trim name)))
