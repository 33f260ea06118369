-- ===== src/Mime/Parameters/Names.antt =====
-- The name of a file that the builder writes is read back.
use lagoon_email.Prelude.{
  ℕ, ◌/◌, ◌%◌, ◌<◌, Text, codes, text_eq, true, false, Option, some, List, [], ◌∷◌, ◌++◌, ◌==◌, ◌≡◌,
  refl, ap, ◌∙◌, arith, All, inl, inr, Bool-cases, split_once, any, text_eq,
}
use lagoon_email.Mime.Builder.{percent_bytes, hex_digit, is_unreserved}
use lagoon_email.Mime.Parameters.{hex_value, percent_decode, decode_rfc5987}

abbrev pub IsByte : ℕ → Type 0
IsByte c = c < 256

pub hex_value-hex_digit : (n : ℕ) → n < 16 → hex_value (hex_digit n) ≡ some n
hex_value-hex_digit n h = ground arith

percent_decode_plain :
    (c : ℕ) (rest : Text)
    → (c == b'%') ≡ false
    → percent_decode (c ∷ rest) ≡ c ∷ percent_decode rest
unfolding percent_decode
percent_decode_plain c [] h = refl
percent_decode_plain c (d ∷ []) h = refl
percent_decode_plain c (d ∷ e ∷ rest) h = rw h refl

percent_decode_escape :
    (b : ℕ) (rest : Text)
    → b < 256
    → percent_decode (b'%' ∷ hex_digit (b / 16) ∷ hex_digit (b % 16) ∷ rest)
      ≡ b ∷ percent_decode rest
unfolding percent_decode
percent_decode_escape b rest h =
    rw (hex_value-hex_digit (b / 16) (omega arith), hex_value-hex_digit (b % 16) (omega arith))
      (ap (λ x. x ∷ percent_decode rest) (omega arith))

unreserved_byte : (c : ℕ) → is_unreserved c ≡ true → (c == b'%') ≡ false
unfolding any
unreserved_byte c h = ground arith

percent_decode-percent_bytes : (t : List ℕ) → All IsByte t → percent_decode (percent_bytes t) ≡ t
unfolding percent_bytes
percent_decode-percent_bytes [] h = unfold percent_decode in refl
percent_decode-percent_bytes (c ∷ cs) (h, hs) = elim (Bool-cases (is_unreserved c)) [
  | inl safe ↦ rw safe (
      percent_decode_plain c (percent_bytes cs) (unreserved_byte c safe)
      ∙ ap (λ rest. c ∷ rest) (percent_decode-percent_bytes cs hs))
  | inr unsafe ↦ rw unsafe (
      percent_decode_escape c (percent_bytes cs) h
      ∙ ap (λ rest. c ∷ rest) (percent_decode-percent_bytes cs hs))
]

percent_bytes-filled : (t : Text) → text_eq t [] ≡ false → text_eq (percent_bytes t) [] ≡ false
unfolding text_eq percent_bytes
percent_bytes-filled [] h = h
percent_bytes-filled (c ∷ cs) h = elim (Bool-cases (is_unreserved c)) [
  | inl safe ↦ rw safe refl
  | inr unsafe ↦ rw unsafe refl
]

-- The name of a file is read back: what the builder writes for `filename*`, whose bytes are its ASCII
-- characters, decodes to the bytes of the name, which are handed to the decoder of the charset with the
-- name of UTF-8.
pub decode_rfc5987-percent_bytes :
    (as_bytes : Text → List ℕ) (decode_charset : List ℕ → Option Text → Text) (bytes : List ℕ)
    → All IsByte bytes
    → text_eq bytes [] ≡ false
    → as_bytes (percent_bytes bytes) ≡ percent_bytes bytes
    → decode_rfc5987 as_bytes decode_charset (codes "UTF-8''" ++ percent_bytes bytes)
      ≡ some (decode_charset bytes (some (codes "UTF-8")))
unfolding decode_rfc5987 split_once text_eq
decode_rfc5987-percent_bytes as_bytes decode_charset bytes h full ascii =
    rw (percent_bytes-filled bytes full, ascii)
      (ap (λ b. some (decode_charset b (some (codes "UTF-8"))))
        (percent_decode-percent_bytes bytes h))
