-- ===== src/Mime/Charset/Quoted.antt =====
-- What a writer of quoted-printable makes by RFC 2045, section 6.7, and that
-- `decode_quoted_printable` reads it. A literal white space at the end of a line, which the standard
-- forbids to write and has a reader delete, is not among it: the code keeps one.
use lagoon_email.Prelude.{
  ℕ, ◌/◌, ◌%◌, ◌<◌, Bool, true, false, not, ◌&&◌, List, leb, ◌||◌, [], ◌∷◌, ◌==◌, ◌≡◌, refl, ap,
  ◌∙◌, arith,
}
use lagoon_email.Mime.Builder.{hex_digit}
use lagoon_email.Mime.Parameters.Names.{hex_value-hex_digit}
use lagoon_email.Mime.Charset.{decode_quoted_printable}

-- a byte as it is, an escape, or a soft line end, of the standard or with a bare LF
pub data Piece : Type 0 where
  literal : ℕ → Piece
  escape : ℕ → Piece
  soft_lf : Piece
  soft_crlf : Piece

-- a printable character but `=`, a blank, or a part of a line end
abbrev pub is_literal : ℕ → Bool
is_literal c = not (c == b'=') && ((leb 0x20 c && leb c 0x7e) || (c == 9 || (c == 10 || c == 13)))

-- the end of a line or of the text
abbrev pub ends_line : List Piece → Bool
ends_line [] = true
ends_line (Piece.literal c ∷ ps) = c == 10 || c == 13
ends_line (p ∷ ps) = false

-- What a writer may do next: no blank ends a line, it is escaped there or a soft line end follows.
abbrev pub IsNext : Piece → List Piece → Type 0
IsNext (Piece.literal c) ps =
    (is_literal c ≡ true) × (((c == 0x20 || c == 9) && ends_line ps) ≡ false)
IsNext (Piece.escape b) ps = b < 256
IsNext Piece.soft_lf ps = Unit
IsNext Piece.soft_crlf ps = Unit

abbrev pub IsWritten : List Piece → Type 0
IsWritten [] = Unit
IsWritten (p ∷ ps) = IsNext p ps × IsWritten ps

abbrev pub written : List Piece → List ℕ
written [] = []
written (Piece.literal c ∷ ps) = c ∷ written ps
written (Piece.escape b ∷ ps) = b'=' ∷ hex_digit (b / 16) ∷ hex_digit (b % 16) ∷ written ps
written (Piece.soft_lf ∷ ps) = b'=' ∷ 10 ∷ written ps
written (Piece.soft_crlf ∷ ps) = b'=' ∷ 13 ∷ 10 ∷ written ps

abbrev pub meant : List Piece → List ℕ
meant [] = []
meant (Piece.literal c ∷ ps) = c ∷ meant ps
meant (Piece.escape b ∷ ps) = b ∷ meant ps
meant (Piece.soft_lf ∷ ps) = meant ps
meant (Piece.soft_crlf ∷ ps) = meant ps

read_literal :
    (c : ℕ) (rest : List ℕ)
    → (c == b'=') ≡ false
    → decode_quoted_printable (c ∷ rest) ≡ c ∷ decode_quoted_printable rest
unfolding decode_quoted_printable
read_literal c [] h = refl
read_literal c (d ∷ []) h = rw h refl
read_literal c (d ∷ e ∷ rest) h = rw h refl

not_newline : (n : ℕ) → n < 16 → ((hex_digit n == 10) ≡ false) × ((hex_digit n == 13) ≡ false)
not_newline n h = ground arith

read_escape :
    (b : ℕ) (rest : List ℕ)
    → b < 256
    → decode_quoted_printable (b'=' ∷ hex_digit (b / 16) ∷ hex_digit (b % 16) ∷ rest)
      ≡ b ∷ decode_quoted_printable rest
unfolding decode_quoted_printable
read_escape b rest h =
    rw
      (
        (not_newline (b / 16) (omega arith)).0,
        (not_newline (b / 16) (omega arith)).1,
        hex_value-hex_digit (b / 16) (omega arith),
        hex_value-hex_digit (b % 16) (omega arith),
      )
      (ap (λ x. x ∷ decode_quoted_printable rest) (omega arith))

read_lf :
    (rest : List ℕ) → decode_quoted_printable (b'=' ∷ 10 ∷ rest) ≡ decode_quoted_printable rest
unfolding decode_quoted_printable
read_lf [] = refl
read_lf (e ∷ rest) = refl

read_crlf :
    (rest : List ℕ) → decode_quoted_printable (b'=' ∷ 13 ∷ 10 ∷ rest) ≡ decode_quoted_printable rest
unfolding decode_quoted_printable
read_crlf rest = refl

-- What a writer of quoted-printable makes of a text, in literal characters, escapes and soft line ends
-- with CRLF or a bare LF, and without a literal blank at the end of a line, is read as the bytes of it.
pub decode_quoted_printable-written :
    (ps : List Piece) → IsWritten ps → decode_quoted_printable (written ps) ≡ meant ps
decode_quoted_printable-written [] h = unfold decode_quoted_printable in refl
decode_quoted_printable-written (Piece.literal c ∷ ps) ((h, k), hs) =
    read_literal c (written ps) (ground (arith, h))
    ∙ ap (λ x. c ∷ x) (decode_quoted_printable-written ps hs)
decode_quoted_printable-written (Piece.escape b ∷ ps) (h, hs) =
    read_escape b (written ps) h ∙ ap (λ x. b ∷ x) (decode_quoted_printable-written ps hs)
decode_quoted_printable-written (Piece.soft_lf ∷ ps) (h, hs) =
    read_lf (written ps) ∙ decode_quoted_printable-written ps hs
decode_quoted_printable-written (Piece.soft_crlf ∷ ps) (h, hs) =
    read_crlf (written ps) ∙ decode_quoted_printable-written ps hs
