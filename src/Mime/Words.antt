-- ===== src/Mime/Words.antt =====
-- The encoded words of crates/lagoon-mail/src/mime/headers.rs: `decode_rfc2047`,
-- `parse_encoded_word`, `decode_encoded_payload` and `decode_headers`.
pub mod Sent
use lagoon_email.Prelude.{
  ℕ, zero, suc, ◌+◌, Text, codes, text_eq, Bool, true, false, not, ◌&&◌, ◌||◌, Option, none, some,
  List, [], ◌∷◌, ◌++◌, map, ◌==◌, if◌then◌else◌, trim, length, any, split_once,
}
use lagoon_email.Mime.Headers.{
  after_prefix, find_subslice, split_head_and_body, parse_header_block, Headers,
}
use lagoon_email.Mime.Charset.{
  Decoders, is_ascii_whitespace, base64_decode, decode_quoted_printable, decode_charset,
}

pub record Word : Type 0 where
  pub charset : Text
  pub encoding : ℕ
  pub payload : Text

abbrev pub is_b : ℕ → Bool
is_b c = c == b'B' || c == b'b'

abbrev pub is_q : ℕ → Bool
is_q c = c == b'Q' || c == b'q'

-- the payload ends with `?=`
abbrev pub closed : Text → ℕ → Text → Text → Option Word
closed charset encoding payload [] = none
closed charset encoding payload (c ∷ cs) =
    if c == b'='
    then some (record { charset = charset; encoding = encoding; payload = payload })
    else none

abbrev pub payload_of : Text → ℕ → Text → Option Word
payload_of charset encoding rest = elim (split_once b'?' rest) [
  | none ↦ none
  | some (payload, behind) ↦ closed charset encoding payload behind
]

abbrev pub encoding_of : Text → Text → Option Word
encoding_of charset [] = none
encoding_of charset (e ∷ []) = none
encoding_of charset (e ∷ q ∷ rest) =
    if (is_b e || is_q e) && q == b'?' then payload_of charset e rest else none

unfoldable pub parse_encoded_word : Text → Option Word
parse_encoded_word t = elim (split_once b'?' t) [
  | none ↦ none
  | some (charset, rest) ↦
      if text_eq charset [] || any is_ascii_whitespace charset
      then none
      else encoding_of charset rest
]

abbrev pub to_space : ℕ → ℕ
to_space c = if c == b'_' then 0x20 else c

abbrev pub decoded_as : Decoders → Text → Option (List ℕ) → Option Text
decoded_as d charset none = none
decoded_as d charset (some bytes) = some (decode_charset d bytes (some charset))

unfoldable pub decode_encoded_payload : Decoders → Word → Option Text
decode_encoded_payload d w =
    if is_b w.encoding
    then decoded_as d w.charset (base64_decode d w.payload)
    else if is_q w.encoding
    then decoded_as d w.charset
        (some (decode_quoted_printable (d.as_bytes (map to_space w.payload))))
    else none

-- a word as it stands in the text
abbrev pub raw_word : Word → Text
raw_word w = codes "=?" ++ (w.charset ++ (b'?' ∷ w.encoding ∷ b'?' ∷ (w.payload ++ codes "?=")))

abbrev pub or_raw_word : Word → Option Text → Text
or_raw_word w none = raw_word w
or_raw_word w (some text) = text

abbrev pub word_at : Text → Option Word
word_at t = elim (after_prefix (codes "=?") t) [ none ↦ none | some rest ↦ parse_encoded_word rest ]

-- how many characters of a word follow its first
abbrev pub tail_size : Word → ℕ
tail_size w = length w.charset + length w.payload + 6

abbrev pub shown_gap : Bool → Text → Text
shown_gap previous_was_encoded gap =
    if previous_was_encoded && text_eq (trim gap) [] then [] else gap

-- The loop of `decode_rfc2047`: what is between the cursor and the search, whether the word before was
-- encoded, and how many characters are still of that word.
unfoldable pub scan : Decoders → Text → Bool → ℕ → Text → Text
scan d gap previous skip [] = gap
scan d gap previous zero (c ∷ cs) = elim (word_at (c ∷ cs)) [
  | none ↦ scan d (gap ++ (c ∷ [])) previous zero cs
  | some w ↦
      shown_gap previous gap
      ++ (or_raw_word w (decode_encoded_payload d w) ++ scan d [] true (tail_size w) cs)
]
scan d gap previous (suc skip) (c ∷ cs) = scan d gap previous skip cs

unfoldable pub decode_rfc2047 : Decoders → Text → Text
decode_rfc2047 d value = elim (find_subslice (codes "=?") value) [
  | none ↦ value
  | some found ↦ scan d [] false zero value
]

abbrev pub decoded_fields : Decoders → Headers → Headers
decoded_fields d [] = []
decoded_fields d ((name, value) ∷ fields) = (name, decode_rfc2047 d value) ∷ decoded_fields d fields

unfoldable pub decode_headers : Decoders → List ℕ → Headers
decode_headers d raw = decoded_fields d (parse_header_block d.from_utf8 (split_head_and_body raw).0)
