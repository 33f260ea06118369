-- ===== src/Imap/Client/Responses.antt =====
-- How crates/lagoon-mail/src/imap/client.rs reads the responses to its commands. The reading of numbers
-- and of UTF-8 is the standard library's, a parameter. The date of a fetched header is left out.
use lagoon_email.Prelude.{
  ℕ, Text, codes, text_eq, Bool, true, false, ◌&&◌, ◌||◌, Option, none, some, List, [], ◌∷◌, ◌++◌,
  ℤ, pos, negsuc, if◌then◌else◌, leb, length, map, upper, get_elem?, is_whitespace, ◌==◌,
}
use mathlib.Core.List.{reverse}
use lagoon_email.Mime.Headers.{Headers, parse_header_block}
use lagoon_email.Imap.Parser.{ImapResponse, is_untagged, atom_at}
use lagoon_email.Imap.Parser.Groups.{parenthesized}
use lagoon_email.Imap.Capabilities.{ImapMailbox}
use lagoon_email.Imap.Membership.{ImapSelected}

pub record Reading : Type 0 where
  pub integer : Text → Option ℤ
  pub count : Text → Option ℕ
  pub utf8 : Text → Option Text

abbrev pub answers_to : Text → ImapResponse → Bool
answers_to keyword r =
    is_untagged r && elim (atom_at r 1) [ none ↦ false | some atom ↦ text_eq atom keyword ]

unfoldable pub skip : ℕ → List Text → List Text
skip n [] = []
skip Prim.Native.Nat.zero xs = xs
skip (Prim.Native.Nat.suc n) (x ∷ xs) = skip n xs

unfoldable pub capability_names : List ImapResponse → List Text
capability_names [] = []
capability_names (r ∷ rs) =
    let rest = capability_names rs in
    if answers_to (codes "CAPABILITY") r then map (map upper) (skip 2 r.atoms) ++ rest else rest

unfoldable pub saw_capability : List ImapResponse → Bool
saw_capability [] = false
saw_capability (r ∷ rs) = answers_to (codes "CAPABILITY") r || saw_capability rs

unfoldable pub last_atom : List Text → Option Text
last_atom [] = none
last_atom (a ∷ []) = some a
last_atom (a ∷ b ∷ as') = last_atom (b ∷ as')

-- a word ends before the first character of `split_words`
abbrev pub word_char : ℕ → List Text → List Text
word_char c [] = (c ∷ []) ∷ []
word_char c (w ∷ ws) = (c ∷ w) ∷ ws

unfoldable pub drop_empty : List Text → List Text
drop_empty [] = []
drop_empty (w ∷ ws) = let rest = drop_empty ws in if text_eq w [] then rest else w ∷ rest

unfoldable pub split_spaces : Text → List Text
split_spaces [] = [] ∷ []
split_spaces (c ∷ cs) =
    let rest = split_spaces cs in if is_whitespace c then [] ∷ rest else word_char c rest

-- `split_whitespace`
unfoldable pub split_whitespace : Text → List Text
split_whitespace t = drop_empty (split_spaces t)

unfoldable pub words_of_all : List Text → List Text
words_of_all [] = []
words_of_all (g ∷ gs) = split_whitespace g ++ words_of_all gs

abbrev pub attributes_of : Option (List Text) → List Text
attributes_of none = []
attributes_of (some groups) = words_of_all groups

abbrev pub listed : ImapResponse → Option Text → List ImapMailbox
listed r none = []
listed r (some name) =
    if text_eq name []
    then []
    else record { name = name; attributes = attributes_of (parenthesized r.raw) } ∷ []

unfoldable pub mailboxes_of : List ImapResponse → List ImapMailbox
mailboxes_of [] = []
mailboxes_of (r ∷ rs) =
    let rest = mailboxes_of rs in
    if answers_to (codes "LIST") r then listed r (last_atom r.atoms) ++ rest else rest

abbrev pub at_least : ℕ → List Text → Bool
at_least n atoms = leb n (length atoms)

abbrev pub count_atom : Reading → ImapResponse → ℕ → ℕ
count_atom reading r old = elim (get_elem? r.atoms 1) [
  | none ↦ old
  | some atom ↦ elim (reading.count atom) [ none ↦ old | some n ↦ n ]
]

-- `response.atoms.len() >= 3 && response.atom_at(2) == "EXISTS"`
abbrev pub tells_exists : ImapResponse → Bool
tells_exists r =
    at_least 3 r.atoms
    && elim (atom_at r 2) [ none ↦ false | some atom ↦ text_eq atom (codes "EXISTS") ]

unfoldable pub read_exists : Reading → List ImapResponse → ℕ → ℕ
read_exists reading [] exists = exists
read_exists reading (r ∷ rs) exists =
    read_exists reading rs
      (if is_untagged r && tells_exists r then count_atom reading r exists else exists)

unfoldable pub selected_of : Reading → Text → List ImapResponse → ImapSelected
selected_of reading mailbox rs = record { mailbox = mailbox; exists = read_exists reading rs 0 }

-- the atoms behind the first answer to SEARCH that has enough of them
unfoldable pub search_answer : ℕ → List ImapResponse → Option (List Text)
search_answer n [] = none
search_answer n (r ∷ rs) =
    let rest = search_answer n rs in
    if answers_to (codes "SEARCH") r
      && (at_least n r.atoms
          && elim (get_elem? r.atoms 0) [ none ↦ false | some a ↦ text_eq a (codes "*") ])
    then some (skip 2 r.atoms)
    else rest

abbrev pub int_leb : ℤ → ℤ → Bool
int_leb (pos a) (pos b) = leb a b
int_leb (pos a) (negsuc b) = false
int_leb (negsuc a) (pos b) = true
int_leb (negsuc a) (negsuc b) = leb b a

unfoldable pub listed_uids : Reading → List Text → List ℤ
listed_uids reading [] = []
listed_uids reading (a ∷ as') =
    let rest = listed_uids reading as' in
    elim (reading.integer a) [ none ↦ rest | some n ↦ n ∷ rest ]

abbrev pub greater : ℤ → Option ℤ → ℤ
greater u none = u
greater u (some v) = if int_leb v u then u else v

-- `max()`
unfoldable pub newest_uid : List ℤ → Option ℤ
newest_uid [] = none
newest_uid (u ∷ us) = some (greater u (newest_uid us))

-- the first literal that is not empty
unfoldable pub first_literal : List ImapResponse → Option Text
first_literal [] = none
first_literal (r ∷ rs) =
    let rest = first_literal rs in
    elim r.literal [ none ↦ rest | some l ↦ if text_eq l [] then rest else some l ]

-- the first literal, which may be empty
unfoldable pub any_literal : List ImapResponse → Option Text
any_literal [] = none
any_literal (r ∷ rs) = let rest = any_literal rs in elim r.literal [ none ↦ rest | some l ↦ some l ]

-- the atom behind a keyword in the items of a FETCH
unfoldable pub atom_after : Text → List Text → Option Text
atom_after keyword [] = none
atom_after keyword (a ∷ as') =
    let rest = atom_after keyword as' in
    if text_eq (map upper a) keyword then get_elem? as' 0 else rest

unfoldable pub number_value_after : Reading → Text → List Text → Option ℤ
number_value_after reading keyword items = elim (atom_after keyword items) [
  | none ↦ none
  | some atom ↦ reading.integer atom
]

unfoldable pub trim_matches : ℕ → Text → Text
trim_matches c [] = []
trim_matches c (d ∷ ds) = let rest = trim_matches c ds in if d == c then rest else d ∷ ds

unfoldable pub flag_list : List Text → List Text
flag_list items = elim (atom_after (codes "FLAGS") items) [
  | none ↦ []
  | some atom ↦ split_whitespace (reverse (trim_matches b')' (reverse (trim_matches b'(' atom))))
]

pub record FetchedHeader : Type 0 where
  pub uid : ℤ
  pub flags : List Text
  pub raw_headers : Headers

abbrev pub fetched : Reading → Text → List Text → Option ℤ → List FetchedHeader
fetched reading literal items none = []
fetched reading literal items (some uid) =
    record {
      uid = uid;
      flags = flag_list items;
      raw_headers = parse_header_block reading.utf8 literal;
    }
    ∷ []

abbrev pub fetched_row : Reading → Option Text → Option (List Text) → List FetchedHeader
fetched_row reading none items = []
fetched_row reading (some literal) none = []
fetched_row reading (some literal) (some items) =
    fetched reading literal items (number_value_after reading (codes "UID") items)

unfoldable pub parse_headers : Reading → List ImapResponse → List FetchedHeader
parse_headers reading [] = []
parse_headers reading (r ∷ rs) =
    let rest = parse_headers reading rs in
    if is_untagged r then fetched_row reading r.literal (parenthesized r.raw) ++ rest else rest
