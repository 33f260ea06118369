-- ===== src/Smtp/Stuffing.antt =====
-- `dot_stuffed_for_data` of crates/lagoon-mail/src/smtp/client.rs, on the text that its `from_utf8_lossy`
-- gives of the message.
pub mod Received
use lagoon_email.Prelude.{
  ℕ, Text, Bool, true, false, ◌&&◌, List, [], ◌∷◌, ◌++◌, map, ◌==◌, if◌then◌else◌,
}

-- the first line of the rest gets one more character
abbrev pub push : ℕ → List Text → List Text
push c [] = (c ∷ []) ∷ []
push c (l ∷ ls) = (c ∷ l) ∷ ls

-- `text.split("\r\n")`
unfoldable pub split_crlf : Text → List Text
split_crlf [] = [] ∷ []
split_crlf (c ∷ []) = (c ∷ []) ∷ []
split_crlf (c ∷ d ∷ cs) = elim (c == 13 && d == 10) [
  | true ↦ [] ∷ split_crlf cs
  | false ↦ push c (split_crlf (d ∷ cs))
]

unfoldable pub stuff_line : Text → Text
stuff_line [] = []
stuff_line (c ∷ cs) = if c == b'.' then b'.' ∷ c ∷ cs else c ∷ cs

-- `join("\r\n")`
unfoldable pub join_crlf : List Text → Text
join_crlf [] = []
join_crlf (l ∷ []) = l
join_crlf (l ∷ m ∷ ls) = l ++ (13 ∷ 10 ∷ join_crlf (m ∷ ls))

-- `text.ends_with("\r\n")`
unfoldable pub ends_with_crlf : Text → Bool
ends_with_crlf [] = false
ends_with_crlf (c ∷ []) = false
ends_with_crlf (c ∷ d ∷ []) = c == 13 && d == 10
ends_with_crlf (c ∷ d ∷ e ∷ cs) = ends_with_crlf (d ∷ e ∷ cs)

unfoldable pub with_crlf : Text → Text
with_crlf text = if ends_with_crlf text then text else text ++ (13 ∷ 10 ∷ [])

unfoldable pub dot_stuffed_for_data : Text → Text
dot_stuffed_for_data text =
    join_crlf (map stuff_line (split_crlf (with_crlf text))) ++ (b'.' ∷ 13 ∷ 10 ∷ [])
