-- ===== src/Api/Query.antt =====
-- crates/lagoon-api/src/http/query.rs: the query string. A string is the list of its UTF-8 bytes.
pub mod Form
pub mod RoundTrip
use lagoon_email.Prelude.{
  ℕ, ◌+◌, ◌-◌, ◌*◌, Text, text_eq, Bool, true, false, not, ◌&&◌, ◌||◌, Option, none, some, List, [],
  ◌∷◌, ◌++◌, ◌==◌, leb, if◌then◌else◌, any, map, filter, split_once,
}
use lagoon_email.Api.Uuid.{hex_value}

-- a continuation byte
abbrev pub is_tail : ℕ → Bool
is_tail b = leb 0x80 b && leb b 0xbf

-- the second byte of a character of three bytes, after its first
abbrev pub second_of_three : ℕ → ℕ → Bool
second_of_three a b =
    if a == 0xe0
    then leb 0xa0 b && leb b 0xbf
    else if a == 0xed
    then leb 0x80 b && leb b 0x9f
    else is_tail b

abbrev pub second_of_four : ℕ → ℕ → Bool
second_of_four a b =
    if a == 0xf0
    then leb 0x90 b && leb b 0xbf
    else if a == 0xf4
    then leb 0x80 b && leb b 0x8f
    else is_tail b

abbrev pub is_pair : ℕ → ℕ → Bool
is_pair a b = leb 0xc2 a && (leb a 0xdf && is_tail b)

abbrev pub is_triple : ℕ → ℕ → ℕ → Bool
is_triple a b c = leb 0xe0 a && (leb a 0xef && (second_of_three a b && is_tail c))

abbrev pub is_quadruple : ℕ → ℕ → ℕ → ℕ → Bool
is_quadruple a b c d =
    leb 0xf0 a && (leb a 0xf4 && (second_of_four a b && (is_tail c && is_tail d)))

-- `String::from_utf8` succeeds
unfoldable pub is_utf8 : List ℕ → Bool
is_utf8 [] = true
is_utf8 (a ∷ []) = leb a 0x7f
is_utf8 (a ∷ b ∷ []) = (leb a 0x7f && is_utf8 (b ∷ [])) || is_pair a b
is_utf8 (a ∷ b ∷ c ∷ []) =
    (leb a 0x7f && is_utf8 (b ∷ c ∷ [])) || ((is_pair a b && is_utf8 (c ∷ [])) || is_triple a b c)
is_utf8 (a ∷ b ∷ c ∷ d ∷ rest) =
    (leb a 0x7f && is_utf8 (b ∷ c ∷ d ∷ rest))
    || ((is_pair a b && is_utf8 (c ∷ d ∷ rest))
        || ((is_triple a b c && is_utf8 (d ∷ rest)) || (is_quadruple a b c d && is_utf8 rest)))

abbrev pub cons_some : ℕ → Option (List ℕ) → Option (List ℕ)
cons_some b none = none
cons_some b (some bs) = some (b ∷ bs)

abbrev pub byte_of : Option ℕ → Option ℕ → Option ℕ
byte_of (some high) (some low) = some (high * 16 + low)
byte_of _ _ = none

abbrev pub escape_or_none : Option ℕ → Option (List ℕ) → Option (List ℕ)
escape_or_none none rest = none
escape_or_none (some b) rest = cons_some b rest

-- one byte that is not the `%` of an escape
abbrev pub plain_byte : ℕ → ℕ
plain_byte c = if c == b'+' then b' ' else c

-- The loop of `decode_component`; `none` is a malformed escape.
unfoldable pub decode : List ℕ → Option (List ℕ)
decode [] = some []
decode (c ∷ []) = if c == b'%' then none else some (plain_byte c ∷ [])
decode (c ∷ d ∷ []) =
    let rest = decode (d ∷ []) in if c == b'%' then none else cons_some (plain_byte c) rest
decode (c ∷ high ∷ low ∷ bytes) =
    let next = decode (high ∷ low ∷ bytes) in
    let behind = decode bytes in
    if c == b'%'
    then escape_or_none (byte_of (hex_value high) (hex_value low)) behind
    else cons_some (plain_byte c) next

abbrev pub or_raw : List ℕ → Option (List ℕ) → List ℕ
or_raw raw none = raw
or_raw raw (some out) = if is_utf8 out then out else raw

abbrev pub is_special : ℕ → Bool
is_special c = c == b'%' || c == b'+'

unfoldable pub decode_component : List ℕ → List ℕ
decode_component raw = if any is_special raw then or_raw raw (decode raw) else raw

abbrev pub cons_head : ℕ → List Text → List Text
cons_head c [] = (c ∷ []) ∷ []
cons_head c (s ∷ ss) = (c ∷ s) ∷ ss

-- `split`
unfoldable pub split : ℕ → Text → List Text
split at [] = [] ∷ []
split at (c ∷ cs) = let rest = split at cs in if c == at then [] ∷ rest else cons_head c rest

abbrev pub name_value : Text → Option (Text × Text) → Text × Text
name_value pair none = (decode_component pair, [])
name_value pair (some (name, value)) = (decode_component name, decode_component value)

unfoldable pub pair_of : Text → Text × Text
pair_of pair = name_value pair (split_once b'=' pair)

abbrev pub is_filled : Text → Bool
is_filled [] = false
is_filled (c ∷ cs) = true

unfoldable pub parse : Option Text → List (Text × Text)
parse none = []
parse (some query) = map pair_of (filter is_filled (split b'&' query))

-- `iter().rev().find(…)`: the last pair of the name
unfoldable pub get : List (Text × Text) → Text → Option Text
get [] name = none
get ((key, value) ∷ pairs) name = elim (get pairs name) [
  | some later ↦ some later
  | none ↦ if text_eq key name then some value else none
]
