-- ===== src/Api/Uuid.antt =====
-- crates/lagoon-api/src/uuid.rs: an id is its 16 bytes. `parse_strict` keeps the values of the hex
-- digits that it has read, which the source packs into the bytes as it goes.
pub mod RoundTrip
use lagoon_email.Prelude.{
  ℕ, zero, suc, ◌+◌, ◌-◌, ◌*◌, ◌/◌, ◌%◌, Text, Bool, true, false, not, ◌&&◌, ◌||◌, Option, none,
  some, List, [], ◌∷◌, ◌++◌, length, leb, ltb, ◌==◌, if◌then◌else◌,
}

unfoldable pub hex_value : ℕ → Option ℕ
hex_value byte =
    if leb b'0' byte && leb byte b'9'
    then some (byte - b'0')
    else if leb b'a' byte && leb byte b'f'
    then some (byte - b'a' + 10)
    else if leb b'A' byte && leb byte b'F'
    then some (byte - b'A' + 10)
    else none

-- the positions of the hyphens
unfoldable pub is_hyphen : ℕ → Bool
is_hyphen index = index == 8 || (index == 13 || (index == 18 || index == 23))

-- The loop over the bytes, with the values read so far.
unfoldable pub read : ℕ → List ℕ → List ℕ → Option (List ℕ)
read index [] nibbles = some nibbles
read index (byte ∷ bytes) nibbles = elim (is_hyphen index) [
  | true ↦ elim (byte == b'-') [ true ↦ read (suc index) bytes nibbles | false ↦ none ]
  | false ↦ elim (hex_value byte) [
    | none ↦ none
    | some value ↦ read (suc index) bytes (nibbles ++ value ∷ [])
  ]
]

-- two values to a byte, `value << 4` and `|= value`
unfoldable pub pack : List ℕ → List ℕ
pack [] = []
pack (high ∷ []) = (high * 16) ∷ []
pack (high ∷ low ∷ rest) = (high * 16 + low) ∷ pack rest

abbrev pub checked : Option (List ℕ) → Option (List ℕ)
checked none = none
checked (some nibbles) = if length nibbles == 32 then some (pack nibbles) else none

unfoldable pub parse_strict : List ℕ → Option (List ℕ)
parse_strict raw = if length raw == 36 then checked (read 0 raw []) else none

-- One digit of `{byte:02x}`.
unfoldable pub hex_digit : ℕ → ℕ
hex_digit n = if ltb n 10 then b'0' + n else b'a' + (n - 10)

unfoldable pub hex_byte : ℕ → Text
hex_byte byte = hex_digit (byte / 16) ∷ hex_digit (byte % 16) ∷ []

-- a hyphen stands before these bytes
abbrev pub is_grouped : ℕ → Bool
is_grouped index = index == 4 || (index == 6 || (index == 8 || index == 10))

unfoldable pub hyphen_before : ℕ → Text
hyphen_before index = if is_grouped index then b'-' ∷ [] else []

unfoldable pub write_from : ℕ → List ℕ → Text
write_from index [] = []
write_from index (byte ∷ bytes) =
    hyphen_before index ++ (hex_byte byte ++ write_from (suc index) bytes)

unfoldable pub to_wire_string : List ℕ → Text
to_wire_string bytes = write_from 0 bytes
