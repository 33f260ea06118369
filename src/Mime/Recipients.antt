-- ===== src/Mime/Recipients.antt =====
-- The addresses of a mail: `parse_address_list` of crates/lagoon-mail/src/mime/headers.rs and
-- `envelope_recipients` of mime/builder.rs.
pub mod Envelope
use lagoon_email.Prelude.{
  ℕ, ◌+◌, ◌-◌, Text, text_eq, Bool, true, false, not, ◌&&◌, ◌||◌, Option, none, some, List, [], ◌∷◌,
  ◌++◌, map, ◌==◌, ltb, if◌then◌else◌, any, contains, trim, lower, length,
}
use mathlib.Core.List.{reverse}
use lagoon_email.Api.Send.Recipients.{rfind, drop, take}
use lagoon_email.Mime.Addresses.{split_address_list}
use lagoon_email.Mime.Builder.{OutboundMessage}

-- A text that ends with a bracket is at least one character long.
abbrev pub ends_with : ℕ → Text → Bool
ends_with c t = elim (reverse t) [ [] ↦ false | d ∷ ds ↦ d == c ]

-- the comment from the last opening bracket on, without its two brackets
abbrev pub is_nested : ℕ → Text → Bool
is_nested first trimmed =
    any (λ c. c == b'(') (take (length (drop first trimmed) - 2) (drop (first + 1) trimmed))

abbrev pub cut_comment : Text → Option ℕ → Text
cut_comment trimmed none = trimmed
cut_comment trimmed (some first) =
    if is_nested first trimmed then trimmed else trim (take first trimmed)

unfoldable pub strip_trailing_comment : Text → Text
strip_trailing_comment value =
    if ends_with b')' (trim value)
    then cut_comment (trim value) (rfind b'(' (trim value) 0 none)
    else trim value

abbrev pub filled : Text → Option Text
filled t = if text_eq t [] then none else some t

abbrev pub bare_address : Text → Option Text
bare_address bare =
    if any (λ c. c == b'@') bare && not (any (λ c. c == 0x20) bare) then some bare else none

abbrev pub address_between : Text → Option ℕ → Option ℕ → Option Text
address_between value (some first) (some last) =
    if ltb first last
    then filled (trim (take (last - first - 1) (drop (first + 1) value)))
    else bare_address (strip_trailing_comment value)
address_between value _ _ = bare_address (strip_trailing_comment value)

unfoldable pub address_of : Text → Option Text
address_of value = address_between value (rfind b'<' value 0 none) (rfind b'>' value 0 none)

abbrev pub cons_some : Option Text → List Text → List Text
cons_some none ts = ts
cons_some (some t) ts = t ∷ ts

abbrev pub all_addresses : List Text → List Text
all_addresses [] = []
all_addresses (value ∷ values) = cons_some (address_of value) (all_addresses values)

unfoldable pub parse_address_list : Text → List Text
parse_address_list raw = all_addresses (split_address_list raw)

-- `flat_map` of `parse_address_list`
abbrev pub parse_all : List Text → List Text
parse_all [] = []
parse_all (value ∷ values) = parse_address_list value ++ parse_all values

unfoldable pub recipient_addresses : OutboundMessage → List Text
recipient_addresses o = parse_address_list o.to

-- the variables of the loop of `envelope_recipients`
pub record Recipients : Type 0 where
  pub seen : List Text
  pub result : List Text

unfoldable pub skip_angles : Text → Text
skip_angles [] = []
skip_angles (c ∷ cs) = let rest = skip_angles cs in if c == b'<' || c == b'>' then rest else c ∷ cs

unfoldable pub without_angles : Text → Text
without_angles raw = trim (reverse (skip_angles (reverse (skip_angles raw))))

abbrev pub insert : Text → Recipients → Recipients
insert address s =
    if text_eq address []
    then s
    else if contains s.seen (map lower address)
    then s
    else record { seen = s.seen ++ (map lower address ∷ []); result = s.result ++ (address ∷ []) }

unfoldable pub insert_all : List Text → Recipients → Recipients
insert_all [] s = s
insert_all (raw ∷ rest) s = insert_all rest (insert (without_angles raw) s)

-- the addresses of the three fields, in their order
abbrev pub named_addresses : OutboundMessage → List Text
named_addresses o = recipient_addresses o ++ (parse_all o.cc ++ parse_all o.bcc)

unfoldable pub envelope_recipients : OutboundMessage → List Text
envelope_recipients o = (insert_all (named_addresses o) (record { seen = []; result = [] })).result
