-- ===== src/Mime/Parameters.antt =====
-- The parameters of a header in crates/lagoon-mail/src/mime/headers.rs: `header_parameter`,
-- `decode_rfc5987` and `percent_decode`, with `hex_value` of mime/charset.rs. A text is its characters;
-- its bytes and the decoder of charsets are parameters.
pub mod Names
use lagoon_email.Prelude.{
  ℕ, ◌+◌, ◌-◌, ◌*◌, Text, codes, text_eq, Bool, true, false, not, ◌&&◌, ◌||◌, Option, none, some,
  List, [], ◌∷◌, ◌++◌, map, ◌==◌, leb, if◌then◌else◌, trim, lower, split_once,
}
use mathlib.Core.List.{reverse}
use lagoon_email.Mime.Headers.{after_prefix}

abbrev pub hex_value : ℕ → Option ℕ
hex_value c =
    if leb b'0' c && leb c b'9'
    then some (c - b'0')
    else if leb b'A' c && leb c b'F'
    then some (c - b'A' + 10)
    else if leb b'a' c && leb c b'f'
    then some (c - b'a' + 10)
    else none

-- one byte for an escape, or the byte as it is when the escape is malformed
abbrev pub escaped_or_plain : Option ℕ → Option ℕ → List ℕ → List ℕ → List ℕ
escaped_or_plain (some high) (some low) behind plain = (high * 16 + low) ∷ behind
escaped_or_plain _ _ behind plain = plain

unfoldable pub percent_decode : List ℕ → List ℕ
percent_decode [] = []
percent_decode (c ∷ []) = c ∷ []
percent_decode (c ∷ d ∷ []) = c ∷ percent_decode (d ∷ [])
percent_decode (c ∷ high ∷ low ∷ bytes) =
    let plain = c ∷ percent_decode (high ∷ low ∷ bytes) in
    let behind = percent_decode bytes in
    if c == b'%' then escaped_or_plain (hex_value high) (hex_value low) behind plain else plain

abbrev pub charset_name : Text → Option Text
charset_name t = if text_eq t [] then none else some t

-- `splitn(3, '\'')`
abbrev pub three_pieces : Text → Option (Text × Text × Text)
three_pieces value = elim (split_once 39 value) [
  | none ↦ none
  | some (charset, rest) ↦ elim (split_once 39 rest) [
    | none ↦ none
    | some (language, encoded) ↦ some (charset, language, encoded)
  ]
]

unfoldable pub decode_rfc5987 : (Text → List ℕ) → (List ℕ → Option Text → Text) → Text → Option Text
decode_rfc5987 as_bytes decode_charset value = elim (three_pieces value) [
  | none ↦ none
  | some (charset, language, encoded) ↦
      if text_eq encoded []
      then none
      else some (decode_charset (percent_decode (as_bytes encoded)) (charset_name charset))
]

abbrev pub cons_first : ℕ → List Text → List Text
cons_first c [] = (c ∷ []) ∷ []
cons_first c (t ∷ ts) = (c ∷ t) ∷ ts

-- `split(';')`
unfoldable pub segments : Text → List Text
segments [] = [] ∷ []
segments (c ∷ cs) = let rest = segments cs in if c == b';' then [] ∷ rest else cons_first c rest

-- a value without its quotes, when it has both
abbrev pub without_last_quote : Text → Text → Text
without_last_quote whole [] = whole
without_last_quote whole (c ∷ cs) = if c == b'"' then reverse cs else whole

abbrev pub unquoted : Text → Text
unquoted [] = []
unquoted (c ∷ cs) = if c == b'"' then without_last_quote (c ∷ cs) (reverse cs) else c ∷ cs

abbrev pub drop_as : Text → Text → Text
drop_as [] t = t
drop_as (p ∷ ps) [] = []
drop_as (p ∷ ps) (c ∷ cs) = drop_as ps cs

abbrev pub is_named : Text → Text → Bool
is_named prefix segment = elim (after_prefix (map lower prefix) (map lower segment)) [
  | none ↦ false
  | some rest ↦ true
]

unfoldable pub first_value : Text → List Text → Option Text
first_value prefix [] = none
first_value prefix (segment ∷ rest) =
    let later = first_value prefix rest in
    if is_named prefix (trim segment)
    then charset_name (unquoted (trim (drop_as prefix (trim segment))))
    else later

unfoldable pub header_parameter : Text → Text → Option Text
header_parameter header name = first_value (name ++ codes "=") (segments header)
