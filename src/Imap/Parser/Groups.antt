-- ===== src/Imap/Parser/Groups.antt =====
-- `parenthesized` of crates/lagoon-mail/src/imap/parser.rs. The depths are `i32` in the source; the
-- outer one is at least 1 while the loop runs, and a line is far too short to reach the end of either.
use lagoon_email.Prelude.{
  ℕ, suc, ◌-◌, ◌≡◌, refl, ap, sym, ◌∙◌, Text, Bool, true, false, not, ◌&&◌, ◌||◌, Option, none,
  some, List, [], ◌∷◌, ◌++◌, append-nil, append_assoc, ◌==◌, ltb, if◌then◌else◌, arith, any, all,
  All,
}
use lagoon_email.Imap.Quoting.{quote_mark, backslash}
use lagoon_email.Imap.Parser.{is_blank}

pub record Scan : Type 0 where
  pub atoms : List Text
  pub current : Text
  pub has_current : Bool
  pub depth : ℕ
  pub bracket_depth : ℕ
  pub in_quote : Bool
  pub pending_escape : Bool

unfoldable pub scan_start : Scan
scan_start = record {
  atoms = [];
  current = [];
  has_current = false;
  depth = 1;
  bracket_depth = 0;
  in_quote = false;
  pending_escape = false;
}

unfoldable pub take_atom : Scan → List Text
take_atom s = if s.has_current then s.atoms ++ s.current ∷ [] else s.atoms

abbrev pub keep : ℕ → Scan → Scan
keep c s = record s { current = s.current ++ c ∷ []; has_current = true }

unfoldable pub scan_quoted : ℕ → Scan → Scan
scan_quoted c s =
    if s.pending_escape
    then record s { current = s.current ++ c ∷ []; pending_escape = false }
    else if c == backslash
    then record s { pending_escape = true }
    else if c == quote_mark
    then record s { in_quote = false }
    else record s { current = s.current ++ c ∷ [] }

unfoldable pub scan_blank : ℕ → Scan → Scan
unfolding take_atom
scan_blank c s =
    if ltb 0 s.bracket_depth
    then keep c s
    else if s.depth == 1
    then record s {
      atoms = take_atom s;
      current = if s.has_current then [] else s.current;
      has_current = false;
    }
    else record s { current = s.current ++ c ∷ [] }

-- One character outside quotation marks. The closing parenthesis of the group is not among them.
unfoldable pub scan_plain : ℕ → Scan → Scan
unfolding scan_blank
scan_plain c s =
    if c == quote_mark
    then record s { in_quote = true; has_current = true }
    else if c == b'['
    then keep c (record s { bracket_depth = suc s.bracket_depth })
    else if c == b']'
    then keep c (record s { bracket_depth = s.bracket_depth - 1 })
    else if c == b'(' && s.bracket_depth == 0
    then keep c (record s { depth = suc s.depth })
    else if c == b')' && s.bracket_depth == 0
    then record s { depth = s.depth - 1; current = s.current ++ c ∷ [] }
    else if is_blank c
    then scan_blank c s
    else keep c s

-- `)` outside quotation marks and brackets, at depth 1
unfoldable pub closes : ℕ → Scan → Bool
closes c s = not s.in_quote && (c == b')' && (s.bracket_depth == 0 && s.depth == 1))

unfoldable pub scan_char : ℕ → Scan → Scan
unfolding scan_quoted scan_plain
scan_char c s = if s.in_quote then scan_quoted c s else scan_plain c s

-- The loop; a group that does not end gives what was read.
unfoldable pub scan : Text → Scan → List Text
scan [] s = take_atom s
scan (c ∷ cs) s = let rest = scan cs (scan_char c s) in if closes c s then take_atom s else rest

-- what follows `line.find('(')`
unfoldable pub after_open : Text → Option Text
after_open [] = none
after_open (c ∷ cs) = if c == b'(' then some cs else after_open cs

unfoldable pub parenthesized : Text → Option (List Text)
parenthesized line = elim (after_open line) [
  | none ↦ none
  | some rest ↦ some (scan rest scan_start)
]

-- a character of an atom outside any group
abbrev pub is_atom_char : ℕ → Bool
is_atom_char c =
    not (c == quote_mark || (c == b'[' || (c == b']' || (c == b'(' || (c == b')' || is_blank c)))))

-- a character inside a nested group, blanks included
abbrev pub is_group_char : ℕ → Bool
is_group_char c = not (c == quote_mark || (c == b'[' || (c == b']' || (c == b'(' || c == b')'))))

-- One item of a group: an atom of at least one character, or a nested group.
pub data Item : Type 0 where
  atom : ℕ → Text → Item
  group : Text → Item

abbrev pub IsItem : Item → Type 0
IsItem (atom c w) = (is_atom_char c ≡ true) × (all is_atom_char w ≡ true)
IsItem (group w) = all is_group_char w ≡ true

abbrev pub item_text : Item → Text
item_text (atom c w) = c ∷ w
item_text (group w) = b'(' ∷ (w ++ b')' ∷ [])

abbrev pub join_items : Item → List Item → Text
join_items x [] = item_text x
join_items x (y ∷ rest) = item_text x ++ b' ' ∷ join_items y rest

abbrev pub texts : List Item → List Text
texts [] = []
texts (x ∷ xs) = item_text x ∷ texts xs

abbrev at : ℕ → List Text → Text → Bool → Scan
at depth atoms current has = record {
  atoms = atoms;
  current = current;
  has_current = has;
  depth = depth;
  bracket_depth = 0;
  in_quote = false;
  pending_escape = false;
}

plain_scan : (c : ℕ) (s : Scan) → is_atom_char c ≡ true → scan_plain c s ≡ keep c s
unfolding scan_plain
plain_scan c s h = ground arith

group_scan :
    (c : ℕ) (atoms : List Text) (current : Text)
    → is_group_char c ≡ true
    → scan_plain c (at 2 atoms current true) ≡ at 2 atoms (current ++ c ∷ []) true
unfolding scan_plain
group_scan c atoms current h = ground arith

atom_char :
    (c : ℕ) (rest : Text) (atoms : List Text) (current : Text) (has : Bool)
    → is_atom_char c ≡ true
    → scan (c ∷ rest) (at 1 atoms current has) ≡ scan rest (at 1 atoms (current ++ c ∷ []) true)
unfolding scan scan_char closes
atom_char c rest atoms current has h = ground (arith, plain_scan c (at 1 atoms current has) h)

group_char :
    (c : ℕ) (rest : Text) (atoms : List Text) (current : Text)
    → is_group_char c ≡ true
    → scan (c ∷ rest) (at 2 atoms current true) ≡ scan rest (at 2 atoms (current ++ c ∷ []) true)
unfolding scan scan_char closes
group_char c rest atoms current h = ground (arith, group_scan c atoms current h)

scan-atom :
    (w rest : Text) (atoms : List Text) (current : Text)
    → all is_atom_char w ≡ true
    → scan (w ++ rest) (at 1 atoms current true) ≡ scan rest (at 1 atoms (current ++ w) true)
unfolding all scan
scan-atom [] rest atoms current h =
    ap (λ t. scan rest (at 1 atoms t true)) (sym (append-nil current))
scan-atom (c ∷ cs) rest atoms current h =
    atom_char c (cs ++ rest) atoms current true (ground arith)
    ∙ scan-atom cs rest atoms (current ++ c ∷ []) (ground arith)
    ∙ ap (λ t. scan rest (at 1 atoms t true)) (append_assoc current (c ∷ []) cs)

scan-group :
    (w rest : Text) (atoms : List Text) (current : Text)
    → all is_group_char w ≡ true
    → scan (w ++ rest) (at 2 atoms current true) ≡ scan rest (at 2 atoms (current ++ w) true)
unfolding all
scan-group [] rest atoms current h =
    ap (λ t. scan rest (at 2 atoms t true)) (sym (append-nil current))
scan-group (c ∷ cs) rest atoms current h =
    group_char c (cs ++ rest) atoms current (ground arith)
    ∙ scan-group cs rest atoms (current ++ c ∷ []) (ground arith)
    ∙ ap (λ t. scan rest (at 2 atoms t true)) (append_assoc current (c ∷ []) cs)

open_char :
    (rest : Text) (atoms : List Text)
    → scan (b'(' ∷ rest) (at 1 atoms [] false) ≡ scan rest (at 2 atoms (b'(' ∷ []) true)
unfolding scan scan_char scan_plain closes
open_char rest atoms = refl

close_char :
    (rest : Text) (atoms : List Text) (current : Text)
    → scan (b')' ∷ rest) (at 2 atoms current true)
      ≡ scan rest (at 1 atoms (current ++ b')' ∷ []) true)
unfolding scan scan_char scan_plain closes
close_char rest atoms current = refl

scan-item :
    (x : Item) (rest : Text) (atoms : List Text)
    → IsItem x
    → scan (item_text x ++ rest) (at 1 atoms [] false) ≡ scan rest (at 1 atoms (item_text x) true)
scan-item (atom c w) rest atoms (hc, hw) =
    atom_char c (w ++ rest) atoms [] false hc ∙ scan-atom w rest atoms (c ∷ []) hw
scan-item (group w) rest atoms h =
    open_char ((w ++ b')' ∷ []) ++ rest) atoms
    ∙ ap (λ t. scan t (at 2 atoms (b'(' ∷ []) true)) (append_assoc w (b')' ∷ []) rest)
    ∙ scan-group w (b')' ∷ rest) atoms (b'(' ∷ []) h
    ∙ close_char rest atoms (b'(' ∷ w)

blank_char :
    (rest v : Text) (atoms : List Text)
    → scan (b' ' ∷ rest) (at 1 atoms v true) ≡ scan rest (at 1 (atoms ++ v ∷ []) [] false)
unfolding scan scan_char scan_plain closes
blank_char rest v atoms = refl

last_char :
    (rest v : Text) (atoms : List Text) → scan (b')' ∷ rest) (at 1 atoms v true) ≡ atoms ++ v ∷ []
unfolding scan closes take_atom
last_char rest v atoms = refl

scan-items :
    (x : Item) (xs : List Item) (rest : Text) (atoms : List Text)
    → All IsItem (x ∷ xs)
    → scan (join_items x xs ++ b')' ∷ rest) (at 1 atoms [] false) ≡ atoms ++ texts (x ∷ xs)
scan-items x [] rest atoms (h, hs) =
    scan-item x (b')' ∷ rest) atoms h ∙ last_char rest (item_text x) atoms
scan-items x (y ∷ ys) rest atoms (h, hs) =
    ap (λ t. scan t (at 1 atoms [] false))
      (append_assoc (item_text x) (b' ' ∷ join_items y ys) (b')' ∷ rest))
    ∙ scan-item x (b' ' ∷ (join_items y ys ++ b')' ∷ rest)) atoms h
    ∙ blank_char (join_items y ys ++ b')' ∷ rest) (item_text x) atoms
    ∙ scan-items y ys rest (atoms ++ item_text x ∷ []) hs
    ∙ append_assoc atoms (item_text x ∷ []) (texts (y ∷ ys))

after_open-append :
    (before rest : Text)
    → any (λ c. c == b'(') before ≡ false
    → after_open (before ++ b'(' ∷ rest) ≡ some rest
unfolding after_open any
after_open-append [] rest h = refl
after_open-append (c ∷ cs) rest h = ground (arith, after_open-append cs rest)

parenthesized_after :
    (line rest : Text)
    → after_open line ≡ some rest
    → parenthesized line ≡ some (scan rest scan_start)
unfolding parenthesized
parenthesized_after line rest e = rw (parenthesized, e) refl

-- The first group of a line is split at its blanks into its items, each as it stands: a nested group,
-- blanks inside it included, is one item, and what follows the group is not looked at.
pub parenthesized_items :
    (before rest : Text) (x : Item) (xs : List Item)
    → any (λ c. c == b'(') before ≡ false
    → All IsItem (x ∷ xs)
    → parenthesized (before ++ b'(' ∷ (join_items x xs ++ b')' ∷ rest)) ≡ some (texts (x ∷ xs))
unfolding scan_start
parenthesized_items before rest x xs h items =
    let inside = join_items x xs ++ b')' ∷ rest in
    parenthesized_after (before ++ b'(' ∷ inside) inside (after_open-append before inside h)
    ∙ ap {B = Option (List Text)} some (scan-items x xs rest [] items)
