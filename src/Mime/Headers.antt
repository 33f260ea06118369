-- ===== src/Mime/Headers.antt =====
-- Header blocks: `split_head_and_body`, `header_text` and `parse_header_block` of
-- crates/lagoon-mail/src/mime/headers.rs. The decoder of UTF-8 is a parameter; a byte that is not part
-- of valid UTF-8 stands for the character of the same number.
use lagoon_email.Prelude.{
  ℕ, Text, text_eq, Bool, false, ◌||◌, Option, none, some, List, [], ◌∷◌, ◌++◌, map, ◌==◌,
  if◌then◌else◌, trim, lower, split_once,
}

-- `find_subslice`, with the bytes before it and behind it
unfoldable pub after_prefix : Text → Text → Option Text
after_prefix [] t = some t
after_prefix (c ∷ cs) [] = none
after_prefix (c ∷ cs) (d ∷ ds) = let rest = after_prefix cs ds in if c == d then rest else none

abbrev pub cons_before : ℕ → Option (Text × Text) → Option (Text × Text)
cons_before c none = none
cons_before c (some (before, behind)) = some (c ∷ before, behind)

unfoldable pub find_subslice : Text → Text → Option (Text × Text)
find_subslice needle [] = elim (after_prefix needle []) [
  | none ↦ none
  | some rest ↦ some ([], rest)
]
find_subslice needle (c ∷ cs) =
    let later = find_subslice needle cs in
    elim (after_prefix needle (c ∷ cs)) [ none ↦ cons_before c later | some rest ↦ some ([], rest) ]

abbrev pub crlf_crlf : Text
crlf_crlf = 13 ∷ 10 ∷ 13 ∷ 10 ∷ []

abbrev pub lf_lf : Text
lf_lf = 10 ∷ 10 ∷ []

unfoldable pub split_head_and_body : Text → Text × Text
split_head_and_body bytes = elim (find_subslice crlf_crlf bytes) [
  | some (head, body) ↦ (head, body)
  | none ↦ elim (find_subslice lf_lf bytes) [
    | some (head, body) ↦ (head, body)
    | none ↦ (bytes, [])
  ]
]

unfoldable pub header_text : (Text → Option Text) → Text → Text
header_text utf8 bytes = elim (utf8 bytes) [ some text ↦ text | none ↦ bytes ]

-- the first line gets one more character
abbrev pub push_char : ℕ → List Text → List Text
push_char c [] = (c ∷ []) ∷ []
push_char c (l ∷ ls) = (c ∷ l) ∷ ls

-- `text.split('\n')`
unfoldable pub split_lines : Text → List Text
split_lines [] = [] ∷ []
split_lines (c ∷ cs) = let rest = split_lines cs in if c == 10 then [] ∷ rest else push_char c rest

-- `strip_suffix('\r').unwrap_or(raw_line)`
unfoldable pub strip_cr : Text → Text
strip_cr [] = []
strip_cr (c ∷ []) = if c == 13 then [] else c ∷ []
strip_cr (c ∷ d ∷ cs) = c ∷ strip_cr (d ∷ cs)

abbrev pub is_continuation : Text → Bool
is_continuation [] = false
is_continuation (c ∷ cs) = c == b' ' || c == 9

abbrev pub Headers : Type 0
Headers = List (Text × Text)

-- `BTreeMap::insert`
unfoldable pub put_header : Text → Text → Headers → Headers
put_header name value [] = (name, value) ∷ []
put_header name value ((n, v) ∷ hs) =
    if text_eq n name then (name, value) ∷ hs else (n, v) ∷ put_header name value hs

unfoldable pub get_header : Text → Headers → Option Text
get_header name [] = none
get_header name ((n, v) ∷ hs) = if text_eq n name then some v else get_header name hs

-- the variables of the loop over the lines
pub record Block : Type 0 where
  pub headers : Headers
  pub name : Option Text
  pub value : Text

abbrev pub finish_field : Option Text → Text → Headers → Headers
finish_field none value hs = hs
finish_field (some field) value hs = put_header field (trim value) hs

abbrev pub start_field : Headers → Option (Text × Text) → Block
start_field hs none = record { headers = hs; name = none; value = [] }
start_field hs (some (field, rest)) =
    if text_eq (map lower (trim field)) []
    then record { headers = hs; name = none; value = [] }
    else record { headers = hs; name = some (map lower (trim field)); value = rest }

abbrev pub continue_field : Text → Block → Option Text → Block
continue_field line b none = b
continue_field line b (some field) = record b { value = b.value ++ (b' ' ∷ trim line) }

unfoldable pub header_line : Text → Block → Block
header_line line b =
    if is_continuation line
    then continue_field line b b.name
    else start_field (finish_field b.name b.value b.headers) (split_once b':' line)

unfoldable pub header_lines : List Text → Block → Block
header_lines [] b = b
header_lines (l ∷ ls) b = header_lines ls (header_line (strip_cr l) b)

abbrev pub headers_of : Block → Headers
headers_of b = finish_field b.name b.value b.headers

unfoldable pub parse_header_block : (Text → Option Text) → Text → Headers
parse_header_block utf8 bytes = headers_of (
    header_lines (split_lines (header_text utf8 bytes))
      (record { headers = []; name = none; value = [] }))
