-- ===== src/Api/Uuid/RoundTrip.antt =====
-- What `to_wire_string` writes, `parse_strict` reads.
use lagoon_email.Prelude.{
  ℕ, suc, ◌+◌, ◌/◌, ◌%◌, ◌≤◌, ◌<◌, ◌≡◌, refl, ap, sym, ◌∙◌, true, false, Option, some, List, [],
  ◌∷◌, ◌++◌, append_assoc, append-nil, length, length-append, leb, if◌then◌else◌, All, arith,
  Bool-cases, inl, inr,
}
use lagoon_email.Api.Uuid.{
  hex_value, is_hyphen, read, pack, checked, parse_strict, hex_digit, hex_byte, hyphen_before,
  write_from, to_wire_string, is_grouped,
}

hex_value-hex_digit : (n : ℕ) → n < 16 → hex_value (hex_digit n) ≡ some n
unfolding hex_value hex_digit
hex_value-hex_digit n h = ground arith

read_digit :
    (index n : ℕ) (rest nibbles : List ℕ)
    → is_hyphen index ≡ false
    → n < 16
    → read index (hex_digit n ∷ rest) nibbles ≡ read (suc index) rest (nibbles ++ n ∷ [])
unfolding read
read_digit index n rest nibbles plain h = rw (read, plain, hex_value-hex_digit n h) refl

read_hyphen :
    (index : ℕ) (rest nibbles : List ℕ)
    → is_hyphen index ≡ true
    → read index (b'-' ∷ rest) nibbles ≡ read (suc index) rest nibbles
unfolding read
read_hyphen index rest nibbles here = rw (read, here) refl

-- the hyphens before the byte at `index`, its own not included
abbrev passed : ℕ → ℕ
passed index =
    if leb index 4
    then 0
    else if leb index 6
    then 1
    else if leb index 8
    then 2
    else if leb index 10
    then 3
    else 4

-- where that byte, or its hyphen, begins in the text
abbrev position : ℕ → ℕ
position index = index + index + passed index

abbrev IsByte : ℕ → Type 0
IsByte b = b < 256

abbrev nibbles_of : List ℕ → List ℕ
nibbles_of [] = []
nibbles_of (b ∷ bs) = b / 16 ∷ b % 16 ∷ nibbles_of bs

read_hex :
    (at b : ℕ) (rest nibbles : List ℕ)
    → is_hyphen at ≡ false
    → is_hyphen (suc at) ≡ false
    → b < 256
    → read at (hex_byte b ++ rest) nibbles
      ≡ read (suc (suc at)) rest ((nibbles ++ b / 16 ∷ []) ++ b % 16 ∷ [])
unfolding hex_byte
read_hex at b rest nibbles first second h =
    read_digit at (b / 16) (hex_digit (b % 16) ∷ rest) nibbles first (omega arith)
    ∙ read_digit (suc at) (b % 16) rest (nibbles ++ b / 16 ∷ []) second (omega arith)

grouped_place :
    (index : ℕ)
    → index < 16
    → is_grouped index ≡ true
    → (is_hyphen (position index) ≡ true)
      × (is_hyphen (suc (position index)) ≡ false)
      × (is_hyphen (suc (suc (position index))) ≡ false)
      × (suc (suc (suc (position index))) ≡ position (suc index))
unfolding is_hyphen
grouped_place index small h = ground arith

plain_place :
    (index : ℕ)
    → index < 16
    → is_grouped index ≡ false
    → (is_hyphen (position index) ≡ false)
      × (is_hyphen (suc (position index)) ≡ false)
      × (suc (suc (position index)) ≡ position (suc index))
unfolding is_hyphen
plain_place index small h = ground arith

grouped_hyphen : (index : ℕ) → is_grouped index ≡ true → hyphen_before index ≡ b'-' ∷ []
unfolding hyphen_before
grouped_hyphen index h = rw h

plain_hyphen : (index : ℕ) → is_grouped index ≡ false → hyphen_before index ≡ []
unfolding hyphen_before
plain_hyphen index h = rw h

-- One byte of the text, with the hyphen that stands before it.
read_byte :
    (index b : ℕ) (rest nibbles : List ℕ)
    → index < 16
    → b < 256
    → read (position index) (hyphen_before index ++ (hex_byte b ++ rest)) nibbles
      ≡ read (position (suc index)) rest ((nibbles ++ b / 16 ∷ []) ++ b % 16 ∷ [])
read_byte index b rest nibbles small h = elim (Bool-cases (is_grouped index)) [
  | inl grouped ↦
      let (here, first, second, next) = grouped_place index small grouped in
      ap (λ t. read (position index) (t ++ (hex_byte b ++ rest)) nibbles)
        (grouped_hyphen index grouped)
      ∙ read_hyphen (position index) (hex_byte b ++ rest) nibbles here
      ∙ read_hex (suc (position index)) b rest nibbles first second h
      ∙ ap (λ i. read i rest ((nibbles ++ b / 16 ∷ []) ++ b % 16 ∷ [])) next
  | inr plain ↦
      let (first, second, next) = plain_place index small plain in
      ap (λ t. read (position index) (t ++ (hex_byte b ++ rest)) nibbles) (plain_hyphen index plain)
      ∙ read_hex (position index) b rest nibbles first second h
      ∙ ap (λ i. read i rest ((nibbles ++ b / 16 ∷ []) ++ b % 16 ∷ [])) next
]

read-write_from :
    (bytes : List ℕ) (index : ℕ) (nibbles : List ℕ)
    → index + length bytes ≤ 16
    → All IsByte bytes
    → read (position index) (write_from index bytes) nibbles ≡ some (nibbles ++ nibbles_of bytes)
unfolding write_from
read-write_from [] index nibbles h all_bytes = unfold read in ap some (sym (append-nil nibbles))
read-write_from (b ∷ bs) index nibbles h (hb, hs) =
    read_byte index b (write_from (suc index) bs) nibbles (omega arith) hb
    ∙ read-write_from bs (suc index) ((nibbles ++ b / 16 ∷ []) ++ b % 16 ∷ []) (omega arith) hs
    ∙ ap some (
        append_assoc (nibbles ++ b / 16 ∷ []) (b % 16 ∷ []) (nibbles_of bs)
        ∙ append_assoc nibbles (b / 16 ∷ []) (b % 16 ∷ nibbles_of bs))

pack-nibbles_of : (bytes : List ℕ) → pack (nibbles_of bytes) ≡ bytes
unfolding pack
pack-nibbles_of [] = refl
pack-nibbles_of (b ∷ bs) = ground (arith, pack-nibbles_of bs)

length-nibbles_of : (bytes : List ℕ) → length (nibbles_of bytes) ≡ length bytes + length bytes
length-nibbles_of [] = refl
length-nibbles_of (b ∷ bs) = omega (arith, length-nibbles_of bs)

length-hyphen_before :
    (index : ℕ)
    → index < 16
    → position index + (length (hyphen_before index) + 2) ≡ position (suc index)
length-hyphen_before index small = elim (Bool-cases (is_grouped index)) [
  | inl grouped ↦
      rw (grouped_hyphen index grouped) (omega (arith, (grouped_place index small grouped).3))
  | inr plain ↦ rw (plain_hyphen index plain) (omega (arith, (plain_place index small plain).2))
]

length-write_from :
    (bytes : List ℕ) (index total : ℕ)
    → total ≤ 16
    → index + length bytes ≡ total
    → position index + length (write_from index bytes) ≡ position total
unfolding write_from hex_byte
length-write_from [] index total h e =
    let same : index ≡ total = omega arith in rw same (omega arith)
length-write_from (b ∷ bs) index total h e = omega (
  arith,
  length-append (hyphen_before index) (hex_byte b ++ write_from (suc index) bs),
  length-hyphen_before index (omega arith),
  length-write_from bs (suc index) total h (omega arith),
)

checked_ok : (bytes : List ℕ) → length bytes ≡ 16 → checked (some (nibbles_of bytes)) ≡ some bytes
checked_ok bytes h =
    rw (length-nibbles_of bytes, h) (ap {B = Option (List ℕ)} some (pack-nibbles_of bytes))

-- The text that is written for an id is 36 characters long and is read back as the same 16 bytes.
pub parse_strict-to_wire_string :
    (bytes : List ℕ)
    → length bytes ≡ 16
    → All IsByte bytes
    → (length (to_wire_string bytes) ≡ 36) × (parse_strict (to_wire_string bytes) ≡ some bytes)
unfolding to_wire_string parse_strict
parse_strict-to_wire_string bytes h all_bytes =
    let long : length (write_from 0 bytes) ≡ 36 =
      omega (arith, length-write_from bytes 0 16 (omega arith) (omega (arith, h))) in
    (
      long,
      rw (parse_strict, long, read-write_from bytes 0 [] (omega arith) all_bytes)
          (checked_ok bytes h),
    )
