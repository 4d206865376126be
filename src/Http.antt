-- ===== src/Http.antt =====
-- core/HttpMessage.h and core/HttpMessage.cpp. A std::string is the list of its bytes; tolower and
-- isspace are those of the "C" locale.
pub mod Text
pub mod Requests
pub mod Lines
pub mod Printed
mod Tests
use Prim.Native.Char.{code}
use Prim.Native.String.{String}
use phonepostmix.Base.{
  ℕ, zero, suc, ◌+◌, ◌/◌, ◌%◌, Bool, true, false, not, ◌&&◌, ◌||◌, ltb, leb, ◌==◌, bytes_eq,
  if◌then◌else◌, Option, none, some, List, [], ◌∷◌, ◌++◌, map, take, drop,
}
use phonepostmix.Base.Int.{ℤ, pos, negsuc}

-- The bytes of an ASCII literal.
abbrev pub bytes : String → List ℕ
bytes String.[] = []
bytes (String.◌∷◌ c s) = code c ∷ bytes s

abbrev pub lower : ℕ → ℕ
lower c = if leb 65 c && leb c 90 then c + 32 else c

abbrev pub to_lower : List ℕ → List ℕ
to_lower s = map lower s

-- " \t\r\n"
abbrev pub is_blank : ℕ → Bool
is_blank c = (c == 32) || ((c == 9) || ((c == 13) || (c == 10)))

unfoldable pub trim_front : List ℕ → List ℕ
trim_front [] = []
trim_front (c ∷ s) = if is_blank c then trim_front s else c ∷ s

-- The text up to its last byte that is no blank.
unfoldable pub trim_back : List ℕ → List ℕ
trim_back [] = []
trim_back (c ∷ s) =
    let rest = trim_back s in if is_blank c && bytes_eq rest [] then [] else c ∷ rest

unfoldable pub trim : List ℕ → List ℕ
unfolding trim_front trim_back
trim s = trim_back (trim_front s)

-- What getline with a delimiter gives till it fails: behind the last delimiter an item only if there
-- is text left. `item` is what has been read of the current one.
unfoldable pub items : ℕ → List ℕ → List ℕ → List (List ℕ)
items delimiter item [] = if bytes_eq item [] then [] else item ∷ []
items delimiter item (c ∷ s) =
    if c == delimiter then item ∷ items delimiter [] s else items delimiter (item ++ c ∷ []) s

unfoldable pub any_item : List ℕ → List (List ℕ) → Bool
unfolding trim
any_item token [] = false
any_item token (item ∷ rest) = bytes_eq (trim item) token || any_item token rest

unfoldable pub contains_token : List ℕ → List ℕ → Bool
unfolding items any_item
contains_token header_value token = any_item token (items 44 [] (to_lower header_value))

-- `headers` is the std::map from lower-cased names to values: one entry for each name, in the order in
-- which the names came.
pub record Request : Type 0 where
  pub method : List ℕ
  pub target : List ℕ
  pub path : List ℕ
  pub version : List ℕ
  pub headers : List (List ℕ × List ℕ)

-- The value at a key, or the empty text.
unfoldable pub find_header : List ℕ → List (List ℕ × List ℕ) → List ℕ
find_header name [] = []
find_header name ((key, value) ∷ headers) =
    if bytes_eq key name then value else find_header name headers

unfoldable pub header : Request → List ℕ → List ℕ
unfolding find_header
header request name = find_header (to_lower name) request.headers

unfoldable pub is_web_socket_upgrade : Request → Bool
unfolding header contains_token
is_web_socket_upgrade request =
    bytes_eq request.method (bytes "GET")
    && contains_token (header request (bytes "upgrade")) (bytes "websocket")
    && contains_token (header request (bytes "connection")) (bytes "upgrade")
    && not (bytes_eq (header request (bytes "sec-websocket-key")) [])

-- "\r\n\r\n"
abbrev pub blank_line : List ℕ
blank_line = 13 ∷ 10 ∷ 13 ∷ 10 ∷ []

-- text.substr (0, headEnd + 2), where there is a blank line.
unfoldable pub head_of : List ℕ → Option (List ℕ)
head_of [] = none
head_of (c ∷ s) =
    let rest = head_of s in
    if bytes_eq (take 4 (c ∷ s)) blank_line
    then some (13 ∷ 10 ∷ [])
    else elim rest [ none ↦ none | some h ↦ some (c ∷ h) ]

-- isspace
abbrev pub is_space : ℕ → Bool
is_space c = (c == 32) || (leb 9 c && leb c 13)

-- The words that `>>` gives. `word` is what has been read of the current one.
unfoldable pub words : List ℕ → List ℕ → List (List ℕ)
words word [] = if bytes_eq word [] then [] else word ∷ []
words word (c ∷ s) =
    if is_space c
    then (if bytes_eq word [] then words [] s else word ∷ words [] s)
    else words (word ++ c ∷ []) s

-- The text before the first `stop`, and what stands behind it, if it occurs.
unfoldable pub split_at_first : ℕ → List ℕ → Option (List ℕ × List ℕ)
split_at_first stop [] = none
split_at_first stop (c ∷ s) =
    let rest = split_at_first stop s in
    if c == stop
    then some ([], s)
    else elim rest [ none ↦ none | some (before, behind) ↦ some (c ∷ before, behind) ]

-- `headers[name] = value`.
unfoldable pub assign : List ℕ → List ℕ → List (List ℕ × List ℕ) → List (List ℕ × List ℕ)
assign name value [] = (name, value) ∷ []
assign name value ((key, old) ∷ headers) =
    let rest = assign name value headers in
    if bytes_eq key name then (key, value) ∷ headers else (key, old) ∷ rest

-- The loop over the header lines.
unfoldable pub read_headers : List (List ℕ) → List (List ℕ × List ℕ) → List (List ℕ × List ℕ)
unfolding split_at_first trim assign
read_headers [] headers = headers
read_headers (line ∷ lines) headers = read_headers lines (elim (split_at_first 58 line) [
  | none ↦ headers
  | some (name, value) ↦ assign (to_lower (trim name)) (trim value) headers
])

-- The target without its query.
unfoldable pub path_of : List ℕ → List ℕ
unfolding split_at_first
path_of target = elim (split_at_first 63 target) [ none ↦ target | some (before, behind) ↦ before ]

unfoldable pub parse_lines : List (List ℕ) → Option Request
unfolding words read_headers path_of
parse_lines [] = none
parse_lines (line ∷ lines) = elim (words [] line) [
  | [] ↦ none
  | method ∷ [] ↦ none
  | method ∷ target ∷ [] ↦ none
  | method ∷ target ∷ version ∷ more ↦ some (record {
    method = method;
    target = target;
    path = path_of target;
    version = version;
    headers = read_headers lines [];
  })
]

unfoldable pub parse_request : List ℕ → Option Request
unfolding head_of items parse_lines
parse_request text = elim (head_of text) [ none ↦ none | some h ↦ parse_lines (items 10 [] h) ]

-- The text from the last '.' on.
unfoldable pub extension : List ℕ → Option (List ℕ)
extension [] = none
extension (c ∷ s) =
    let rest = extension s in
    elim rest [ none ↦ (if c == 46 then some (c ∷ s) else none) | some e ↦ some e ]

abbrev pub types : List (List ℕ × List ℕ)
types =
    (bytes ".html", bytes "text/html; charset=utf-8")
    ∷ (bytes ".js", bytes "text/javascript; charset=utf-8")
    ∷ (bytes ".css", bytes "text/css; charset=utf-8")
    ∷ (bytes ".json", bytes "application/json; charset=utf-8")
    ∷ (bytes ".svg", bytes "image/svg+xml")
    ∷ (bytes ".png", bytes "image/png")
    ∷ (bytes ".ico", bytes "image/x-icon")
    ∷ (bytes ".txt", bytes "text/plain; charset=utf-8")
    ∷ []

unfoldable pub find_type : List ℕ → List (List ℕ × List ℕ) → List ℕ
find_type key [] = bytes "application/octet-stream"
find_type key ((ending, mime_type) ∷ rest) =
    if bytes_eq ending key then mime_type else find_type key rest

unfoldable pub mime_type_for_path : List ℕ → List ℕ
unfolding extension find_type
mime_type_for_path path = elim (extension path) [
  | none ↦ bytes "application/octet-stream"
  | some e ↦ find_type (to_lower e) types
]

-- A number as the stream writes it; `n` turns are enough.
unfoldable pub decimal_from : ℕ → ℕ → List ℕ
decimal_from zero n = (48 + n % 10) ∷ []
decimal_from (suc fuel) n =
    let rest = decimal_from fuel (n / 10) in
    if ltb n 10 then (48 + n) ∷ [] else rest ++ (48 + n % 10) ∷ []

abbrev pub decimal : ℕ → List ℕ
decimal n = decimal_from n n

abbrev pub crlf : List ℕ
crlf = 13 ∷ 10 ∷ []

unfoldable pub extra_lines : List (List ℕ) → List ℕ
extra_lines [] = []
extra_lines (h ∷ headers) = h ++ crlf ++ extra_lines headers

unfoldable pub make_response_head : ℕ → List ℕ → List ℕ → ℤ → List (List ℕ) → List ℕ
unfolding extra_lines decimal_from
make_response_head status_code reason content_type content_length extra_headers =
    let type_line =
      if bytes_eq content_type [] then [] else bytes "Content-Type: " ++ content_type ++ crlf in
    let length_line : List ℕ = elim content_length [
      | pos n ↦ bytes "Content-Length: " ++ decimal n ++ crlf
      | negsuc n ↦ []
    ] in
    bytes "HTTP/1.1 "
    ++ decimal status_code
    ++ 32 ∷ (reason ++ crlf)
    ++ type_line
    ++ length_line
    ++ extra_lines extra_headers
    ++ crlf
