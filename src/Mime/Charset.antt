-- ===== src/Mime/Charset.antt =====
-- crates/lagoon-mail/src/mime/charset.rs: charsets, base64 and quoted-printable. The bytes of a text, the
-- decoders of UTF-8, of GB18030 and of the table of labels, and the base64 engine are parameters. The
-- padding of base64 counts characters, which are the bytes of all text that an engine accepts.
pub mod Body
pub mod Quoted
use lagoon_email.Prelude.{
  ℕ, zero, suc, ◌+◌, ◌-◌, ◌*◌, ◌%◌, Text, codes, text_eq, Bool, true, false, not, ◌&&◌, ◌||◌,
  Option, none, some, List, [], ◌∷◌, ◌++◌, map, ◌==◌, leb, ltb, if◌then◌else◌, trim, lower, length,
  filter, all, contains,
}
use lagoon_email.Mime.Parameters.{hex_value, escaped_or_plain}

pub record Decoders : Type 0 where
  pub as_bytes : Text → List ℕ
  pub from_utf8 : List ℕ → Option Text
  pub from_utf8_lossy : List ℕ → Text
  pub gb18030 : List ℕ → Option Text
  pub for_label : Text → Option (List ℕ → Option Text)
  pub base64 : Text → Option (List ℕ)

-- each byte is the character of its number
abbrev pub latin1 : List ℕ → Text
latin1 bytes = bytes

abbrev pub or_latin1 : List ℕ → Option Text → Text
or_latin1 bytes none = latin1 bytes
or_latin1 bytes (some text) = text

abbrev pub replacements : Text → ℕ
replacements t = length (filter (λ c. c == 0xfffd) t)

-- few characters of a lenient decoding are replaced
abbrev pub is_kept : Text → Bool
is_kept t = ltb 0 (length t) && leb (replacements t * 100) (length t)

abbrev pub lenient : Decoders → List ℕ → Option Text → Text
lenient d bytes (some text) = text
lenient d bytes none =
    if is_kept (d.from_utf8_lossy bytes) then d.from_utf8_lossy bytes else latin1 bytes

abbrev pub by_label : List ℕ → Option (List ℕ → Option Text) → Text
by_label bytes none = latin1 bytes
by_label bytes (some decode) = or_latin1 bytes (decode bytes)

abbrev pub utf8_names : List Text
utf8_names = [] ∷ codes "utf-8" ∷ codes "utf8" ∷ []

abbrev pub gbk_names : List Text
gbk_names =
    codes "gbk"
    ∷ codes "gb2312"
    ∷ codes "gb-2312"
    ∷ codes "gb_2312"
    ∷ codes "x-gbk"
    ∷ codes "cp936"
    ∷ codes "ms936"
    ∷ codes "gb18030"
    ∷ []

abbrev pub latin1_names : List Text
latin1_names =
    codes "iso-8859-1"
    ∷ codes "iso8859-1"
    ∷ codes "latin-1"
    ∷ codes "latin1"
    ∷ codes "us-ascii"
    ∷ codes "ascii"
    ∷ codes "windows-1252"
    ∷ []

abbrev pub decode_named : Decoders → List ℕ → Text → Text
decode_named d bytes name =
    if contains utf8_names name
    then lenient d bytes (d.from_utf8 bytes)
    else if contains gbk_names name
    then or_latin1 bytes (d.gb18030 bytes)
    else if contains latin1_names name
    then latin1 bytes
    else by_label bytes (d.for_label name)

unfoldable pub decode_charset : Decoders → List ℕ → Option Text → Text
decode_charset d bytes none = decode_named d bytes []
decode_charset d bytes (some charset) = decode_named d bytes (map lower (trim charset))

-- `is_ascii_whitespace`
abbrev pub is_ascii_whitespace : ℕ → Bool
is_ascii_whitespace c = c == 0x20 || (c == 9 || (c == 10 || (c == 12 || c == 13)))

abbrev pub without_whitespace : Text → Text
without_whitespace t = filter (λ c. not (is_ascii_whitespace c)) t

abbrev pub equal_signs : ℕ → Text
equal_signs zero = []
equal_signs (suc n) = b'=' ∷ equal_signs n

-- what is missing to the next multiple of four, for a remainder
abbrev pub padding : ℕ → Text
padding zero = []
padding (suc n) = equal_signs (4 - suc n)

abbrev pub is_padding : Text → Bool
is_padding t = all (λ c. c == b'=') t

unfoldable pub base64_decode : Decoders → Text → Option (List ℕ)
base64_decode d value =
    if text_eq (without_whitespace value) [] || is_padding (without_whitespace value)
    then none
    else d.base64 (without_whitespace value ++ padding (length (without_whitespace value) % 4))

unfoldable pub decode_quoted_printable : List ℕ → List ℕ
decode_quoted_printable [] = []
decode_quoted_printable (c ∷ []) = c ∷ []
decode_quoted_printable (c ∷ d ∷ []) =
    let plain = c ∷ decode_quoted_printable (d ∷ []) in if c == b'=' && d == 10 then [] else plain
decode_quoted_printable (c ∷ d ∷ e ∷ rest) =
    let plain = c ∷ decode_quoted_printable (d ∷ e ∷ rest) in
    let after_newline = decode_quoted_printable (e ∷ rest) in
    let behind = decode_quoted_printable rest in
    if not (c == b'=')
    then plain
    else if d == 10
    then after_newline
    else if d == 13 && e == 10
    then behind
    else escaped_or_plain (hex_value d) (hex_value e) behind plain
