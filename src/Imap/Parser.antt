-- ===== src/Imap/Parser.antt =====
-- crates/lagoon-mail/src/imap/parser.rs: response lines. A line is the list of its characters' code
-- points; a loop over `chars()` is a recursion on that list with the loop's variables in a record.
pub mod Tokens
pub mod Groups
pub mod Literals
use lagoon_email.Prelude.{
  ℕ, zero, suc, ◌+◌, ◌-◌, ◌*◌, ◌/◌, ◌^◌, Text, codes, text_eq, Bool, true, false, not, ◌&&◌, ◌||◌,
  Option, none, some, List, [], ◌∷◌, ◌++◌, ◌==◌, ltb, leb, if◌then◌else◌, all, get_elem?, upper,
  is_whitespace,
}
use mathlib.Core.List.{reverse, map}
use lagoon_email.Imap.Quoting.{quote_mark, backslash}

abbrev pub is_blank : ℕ → Bool
is_blank c = c == b' ' || c == 9

-- the variables of the loop of `tokenize`
pub record Lexer : Type 0 where
  pub atoms : List Text
  pub current : Text
  pub has_current : Bool
  pub in_quote : Bool
  pub pending_escape : Bool

unfoldable pub lex_start : Lexer
lex_start = record {
  atoms = [];
  current = [];
  has_current = false;
  in_quote = false;
  pending_escape = false;
}

abbrev pub push : ℕ → Lexer → Lexer
push c l = record l { current = l.current ++ c ∷ [] }

unfoldable pub lex_quoted : ℕ → Lexer → Lexer
lex_quoted c l =
    if l.pending_escape
    then record l { current = l.current ++ c ∷ []; pending_escape = false }
    else if c == backslash
    then record l { pending_escape = true }
    else if c == quote_mark
    then record l { in_quote = false }
    else push c l

unfoldable pub lex_plain : ℕ → Lexer → Lexer
lex_plain c l =
    if c == quote_mark
    then record l { in_quote = true; has_current = true }
    else if is_blank c
    then (if l.has_current
        then record l { atoms = l.atoms ++ l.current ∷ []; current = []; has_current = false }
        else l)
    else record l { current = l.current ++ c ∷ []; has_current = true }

unfoldable pub lex_char : ℕ → Lexer → Lexer
unfolding lex_quoted lex_plain
lex_char c l = if l.in_quote then lex_quoted c l else lex_plain c l

unfoldable pub lex : Text → Lexer → Lexer
lex [] l = l
lex (c ∷ cs) l = lex cs (lex_char c l)

-- what stands behind the loop
unfoldable pub lex_end : Lexer → List Text
lex_end l =
    let current = if l.pending_escape then l.current ++ backslash ∷ [] else l.current in
    if l.has_current then l.atoms ++ current ∷ [] else l.atoms

unfoldable pub tokenize : Text → List Text
tokenize line = lex_end (lex line lex_start)

pub data ImapStatus : Type 0 where
  ok_status no_status bad_status : ImapStatus

pub data ResponseKind : Type 0 where
  tagged : Text → ImapStatus → ResponseKind
  untagged continuation : ResponseKind

pub record ImapResponse : Type 0 where
  pub kind : ResponseKind
  pub atoms : List Text
  pub literal : Option Text
  pub raw : Text

unfoldable pub parse_status : Text → Option ImapStatus
parse_status atom =
    let up = map upper atom in
    if text_eq up (codes "OK")
    then some ok_status
    else if text_eq up (codes "NO")
    then some no_status
    else if text_eq up (codes "BAD")
    then some bad_status
    else none

-- `find_map(ImapStatus::parse).unwrap_or(Bad)`
unfoldable pub status_among : List Text → ImapStatus
status_among [] = bad_status
status_among (atom ∷ atoms) = elim (parse_status atom) [
  | none ↦ status_among atoms
  | some status ↦ status
]

unfoldable pub kind_of : Text → List Text → ResponseKind
kind_of first rest =
    if text_eq first (codes "*")
    then untagged
    else if text_eq first (codes "+")
    then continuation
    else tagged first (status_among rest)

unfoldable pub with_atoms : Text → Option Text → List Text → Option ImapResponse
with_atoms line literal [] = none
with_atoms line literal (first ∷ rest) =
    some (record { kind = kind_of first rest; atoms = first ∷ rest; literal = literal; raw = line })

unfoldable pub parse : Text → Option Text → Option ImapResponse
parse line literal =
    if all is_whitespace line then none else with_atoms line literal (tokenize line)

unfoldable pub is_untagged : ImapResponse → Bool
is_untagged r = elim r.kind [ untagged ↦ true | _ ↦ false ]

unfoldable pub atom_at : ImapResponse → ℕ → Option Text
atom_at r index = elim (get_elem? r.atoms index) [ none ↦ none | some atom ↦ some (map upper atom) ]
