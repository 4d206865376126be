-- ===== src/Http/Printed.antt =====
-- A request as a client prints it, and what `parseRequest` makes of it.
use phonepostmix.Base.{
  Bool, max, bytes_eq, bytes_eq→eq, ◌||◌, arith, suc, ℕ, ◌≡◌, ◌≢◌, refl, ap, ◌∙◌, true, false, ◌==◌,
  if◌then◌else◌, Option, none, some, List, [], ◌∷◌, ◌++◌, append_assoc, map,
}
use phonepostmix.Http.{
  assign, header, find_header, Request, to_lower, is_space, trim, crlf, words, split_at_first,
  parse_lines, parse_request, read_headers, path_of,
}
use phonepostmix.Http.Requests.{
  find_header-assign, apart_keys, without, split_at_first-append, with_header, parse_head,
  parse_request-head,
}
use phonepostmix.Http.Lines.{
  print_lines, AllPlain, ended, solid, IsTrimmed, head_of-print_lines, items-print_lines,
  words-solid, solid-without, without-append, trim-value,
}

-- A word of the request line.
abbrev pub IsWord : List ℕ → Type 0
IsWord w = (w ≢ []) × (solid w ≡ true)

abbrev pub request_line : List ℕ → List ℕ → List ℕ → List ℕ
request_line method target version = method ++ 32 ∷ (target ++ 32 ∷ version)

abbrev pub field_line : List ℕ × List ℕ → List ℕ
field_line (name, value) = name ++ 58 ∷ 32 ∷ value

abbrev pub print_request : List ℕ → List ℕ → List ℕ → List (List ℕ × List ℕ) → List ℕ
print_request method target version fields =
    print_lines (request_line method target version ∷ map field_line fields) ++ crlf

-- The names have no colon, the values are trimmed, and neither has a byte of the end of line.
unfoldable pub AllFields : List (List ℕ × List ℕ) → Type 0
AllFields [] = Unit {0}
AllFields ((name, value) ∷ fields) =
    (without 58 name ≡ true)
    × IsTrimmed value
    × (without 13 (field_line (name, value)) ≡ true)
    × (without 10 (field_line (name, value)) ≡ true)
    × AllFields fields

unfoldable stored : List (List ℕ × List ℕ) → List (List ℕ × List ℕ) → List (List ℕ × List ℕ)
stored [] found = found
stored ((name, value) ∷ fields) found = stored fields (assign (to_lower (trim name)) value found)

-- The value of the last field of that name, in small letters, or `default` where there is none.
unfoldable pub last_of : List ℕ → List (List ℕ × List ℕ) → List ℕ → List ℕ
last_of query [] default = default
last_of query ((name, value) ∷ fields) default =
    last_of query fields (if bytes_eq (to_lower (trim name)) query then value else default)

-- Whether there is a field of that name.
unfoldable pub is_named : List ℕ → List (List ℕ × List ℕ) → Bool
is_named query [] = false
is_named query ((name, value) ∷ fields) =
    bytes_eq (to_lower (trim name)) query || is_named query fields

-- How many entries a map has for a key.
unfoldable pub entries : List ℕ → List (List ℕ × List ℕ) → ℕ
entries query [] = 0
entries query ((key, value) ∷ found) =
    let rest = entries query found in if bytes_eq key query then suc rest else rest

find_header-stored :
    (query : List ℕ) (fields found : List (List ℕ × List ℕ))
    → find_header query (stored fields found) ≡ last_of query fields (find_header query found)
unfolding stored last_of
find_header-stored query [] found = refl
find_header-stored query ((name, value) ∷ fields) found =
    find_header-stored query fields (assign (to_lower (trim name)) value found)
    ∙ ap (last_of query fields) (find_header-assign query (to_lower (trim name)) value found)

entries-assign :
    (query name value : List ℕ) (found : List (List ℕ × List ℕ))
    → entries query (assign name value found)
      ≡ (if bytes_eq name query then max 1 (entries query found) else entries query found)
unfolding entries assign
entries-assign query name value [] = ground arith
entries-assign query name value ((key, old) ∷ found) = ground (
  arith,
  entries-assign query name value found,
  bytes_eq→eq key name,
  apart_keys key name query,
  ap (λ k. bytes_eq k query) {x = key} {y = name},
)

entries-stored :
    (query : List ℕ) (fields found : List (List ℕ × List ℕ))
    → entries query (stored fields found)
      ≡ (if is_named query fields then max 1 (entries query found) else entries query found)
unfolding stored is_named
entries-stored query [] found = refl
entries-stored query ((name, value) ∷ fields) found = ground (
  arith,
  entries-stored query fields (assign (to_lower (trim name)) value found),
  entries-assign query (to_lower (trim name)) value found,
)

words-request_line :
    (method target version : List ℕ)
    → IsWord method
    → IsWord target
    → IsWord version
    → words [] (ended (request_line method target version)) ≡ method ∷ target ∷ version ∷ []
words-request_line method target version (m, solid_method) (t, solid_target) (v, solid_version) =
    ap (words []) (
      append_assoc method (32 ∷ (target ++ 32 ∷ version)) (13 ∷ [])
      ∙ ap (λ x. method ++ 32 ∷ x) (append_assoc target (32 ∷ version) (13 ∷ [])))
    ∙ words-solid [] method (target ++ 32 ∷ (version ++ 13 ∷ [])) 32 solid_method refl m
    ∙ ap (λ x. method ∷ x)
        (words-solid [] target (version ++ 13 ∷ []) 32 solid_target refl t
          ∙ ap (λ x. target ∷ x)
              (words-solid [] version [] 13 solid_version refl v ∙ unfold words in refl))

request_line-plain :
    (stop : ℕ) (method target version : List ℕ)
    → is_space stop ≡ true
    → (32 == stop) ≡ false
    → IsWord method
    → IsWord target
    → IsWord version
    → without stop (request_line method target version) ≡ true
request_line-plain stop method target version space apart (_, m) (_, t) (_, v) =
    let skip = λ (l : List ℕ) (e : without stop l ≡ true).
      ap (λ b. if b then false else without stop l) apart ∙ e in
    without-append stop method (32 ∷ (target ++ 32 ∷ version)) (solid-without stop method space m) (
      skip (target ++ 32 ∷ version) (
        without-append stop target (32 ∷ version) (solid-without stop target space t)
          (skip version (solid-without stop version space v))))

fields-AllPlain :
    (fields : List (List ℕ × List ℕ)) → AllFields fields → AllPlain (map field_line fields)
unfolding AllFields AllPlain
fields-AllPlain [] plain = tt
fields-AllPlain (([], value) ∷ fields) (_, _, no_cr, no_lf, more) =
    (λ e. cc, no_cr, no_lf, fields-AllPlain fields more)
fields-AllPlain ((c ∷ name, value) ∷ fields) (_, _, no_cr, no_lf, more) =
    (λ e. cc, no_cr, no_lf, fields-AllPlain fields more)

read_headers-fields :
    (fields found : List (List ℕ × List ℕ))
    → AllFields fields
    → read_headers (map ended (map field_line fields)) found ≡ stored fields found
unfolding AllFields read_headers stored
read_headers-fields [] found plain = refl
read_headers-fields ((name, value) ∷ fields) found (no_colon, trimmed, _, _, more) =
    ap (λ o. read_headers (map ended (map field_line fields)) (with_header o found))
      (ap (split_at_first 58) (append_assoc name (58 ∷ 32 ∷ value) (13 ∷ []))
        ∙ split_at_first-append 58 name (32 ∷ value ++ 13 ∷ []) no_colon)
    ∙ ap
        (λ v.
          read_headers (map ended (map field_line fields)) (assign (to_lower (trim name)) v found))
        (trim-value value trimmed)
    ∙ read_headers-fields fields (assign (to_lower (trim name)) value found) more

abbrev made_of : List ℕ → List ℕ → List ℕ → List (List ℕ × List ℕ) → Option Request
made_of method target version headers = some (record {
  method = method;
  target = target;
  path = path_of target;
  version = version;
  headers = headers;
})

parse_lines-words :
    (line : List ℕ) (lines : List (List ℕ)) (method target version : List ℕ)
    → words [] line ≡ method ∷ target ∷ version ∷ []
    → parse_lines (line ∷ lines) ≡ made_of method target version (read_headers lines [])
unfolding parse_lines
parse_lines-words line lines method target version e =
    ap
      (λ ws. elim ws [
        | [] ↦ none
        | m ∷ [] ↦ none
        | m ∷ t ∷ [] ↦ none
        | m ∷ t ∷ v ∷ more ↦ made_of m t v (read_headers lines [])
      ])
      e

not_empty : (a : List ℕ) (c : ℕ) (b : List ℕ) → a ++ c ∷ b ≢ []
not_empty [] c b e = cc
not_empty (d ∷ a) c b e = cc

lines-AllPlain :
    (method target version : List ℕ) (fields : List (List ℕ × List ℕ))
    → IsWord method
    → IsWord target
    → IsWord version
    → AllFields fields
    → AllPlain (request_line method target version ∷ map field_line fields)
unfolding AllPlain
lines-AllPlain method target version fields m t v plain = (
  not_empty method 32 (target ++ 32 ∷ version),
  request_line-plain 13 method target version refl refl m t v,
  request_line-plain 10 method target version refl refl m t v,
  fields-AllPlain fields plain,
)

-- A request that a client prints, its line and its fields each with the end of line behind it and a
-- blank line behind them, is read back: the three words of the line, the path before the query, and
-- under each name, in small letters, one entry with the value of the last field of that name. A name
-- that no field has is not in the map.
pub parse_request-print_request :
    (method target version : List ℕ) (fields : List (List ℕ × List ℕ))
    → IsWord method
    → IsWord target
    → IsWord version
    → AllFields fields
    → (r : Request) × (parse_request (print_request method target version fields) ≡ some r)
      × (r.method ≡ method)
      × (r.target ≡ target)
      × (r.path ≡ path_of target)
      × (r.version ≡ version)
      × ((name : List ℕ) → header r name ≡ last_of (to_lower name) fields [])
      × ((key : List ℕ) → entries key r.headers ≡ (if is_named key fields then 1 else 0))
unfolding header entries
parse_request-print_request method target version fields m t v plain =
    let line = request_line method target version in
    let all : AllPlain (line ∷ map field_line fields) =
      lines-AllPlain method target version fields m t v plain in
    (
      record {
        method = method;
        target = target;
        path = path_of target;
        version = version;
        headers = stored fields [];
      },
      parse_request-head (print_request method target version fields)
          ∙ ap parse_head (head_of-print_lines line (map field_line fields) all)
          ∙ ap parse_lines (items-print_lines (line ∷ map field_line fields) all)
          ∙ parse_lines-words (ended line) (map ended (map field_line fields)) method target version
              (words-request_line method target version m t v)
          ∙ ap (made_of method target version) (read_headers-fields fields [] plain),
      refl,
      refl,
      refl,
      refl,
      λ name. find_header-stored (to_lower name) fields [],
      λ key. entries-stored key fields [],
    )
