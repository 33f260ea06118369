-- ===== src/Mime/Addresses.antt =====
-- `split_address_list` of crates/lagoon-mail/src/mime/headers.rs.
pub mod Unbroken
use lagoon_email.Prelude.{
  ℕ, ◌+◌, ◌-◌, Text, text_eq, Bool, true, false, not, ◌&&◌, List, [], ◌∷◌, ◌++◌, ◌==◌,
  if◌then◌else◌, trim,
}

-- the variables of the loop; a depth is never below zero
pub record Pieces : Type 0 where
  pub pieces : List Text
  pub current : Text
  pub in_quotes : Bool
  pub angle_depth : ℕ
  pub escaped : Bool

abbrev pub extend : ℕ → Pieces → Pieces
extend c p = record p { current = p.current ++ (c ∷ []) }

unfoldable pub read_char : ℕ → Pieces → Pieces
read_char c p =
    if p.escaped
    then record (extend c p) { escaped = false }
    else if c == b'\\' && p.in_quotes
    then record (extend c p) { escaped = true }
    else if c == b'"'
    then record (extend c p) { in_quotes = not p.in_quotes }
    else if c == b'<'
    then record (extend c p) { angle_depth = p.angle_depth + 1 }
    else if c == b'>'
    then record (extend c p) { angle_depth = p.angle_depth - 1 }
    else if c == b',' && (not p.in_quotes && p.angle_depth == 0)
    then record p { pieces = p.pieces ++ (p.current ∷ []); current = [] }
    else extend c p

unfoldable pub read_chars : Text → Pieces → Pieces
read_chars [] p = p
read_chars (c ∷ cs) p = read_chars cs (read_char c p)

unfoldable pub trimmed_pieces : List Text → List Text
trimmed_pieces [] = []
trimmed_pieces (t ∷ ts) =
    let rest = trimmed_pieces ts in if text_eq (trim t) [] then rest else trim t ∷ rest

abbrev pub last_piece : Text → List Text
last_piece t = if text_eq t [] then [] else t ∷ []

abbrev pub no_pieces : Pieces
no_pieces = record {
  pieces = [];
  current = [];
  in_quotes = false;
  angle_depth = 0;
  escaped = false;
}

abbrev pub collected : Pieces → List Text
collected p = p.pieces ++ last_piece p.current

unfoldable pub split_address_list : Text → List Text
split_address_list raw = trimmed_pieces (collected (read_chars (trim raw) no_pieces))
