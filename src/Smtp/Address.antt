-- ===== src/Smtp/Address.antt =====
-- `is_valid_envelope_address` of crates/lagoon-mail/src/smtp/client.rs, and why it admits no injected
-- command.
pub mod Line
use lagoon_email.Prelude.{
  ℕ, ◌+◌, Text, codes, Bool, true, false, not, ◌&&◌, ◌||◌, List, [], ◌∷◌, ◌++◌, ◌==◌, leb, ltb, any,
  is_whitespace, ◌≡◌, refl, arith,
}

abbrev pub crlf : Text
crlf = 13 ∷ 10 ∷ []

-- `char::is_control`: the general category Cc
abbrev pub is_control : ℕ → Bool
is_control c = ltb c 0x20 || (leb 0x7f c && leb c 0x9f)

unfoldable pub unsafe_in_path : ℕ → Bool
unsafe_in_path c = is_control c || (is_whitespace c || (c == b'<' || c == b'>'))

abbrev is_empty : Text → Bool
is_empty [] = true
is_empty (c ∷ cs) = false

unfoldable pub is_valid_envelope_address : Text → Bool
is_valid_envelope_address address =
    not (is_empty address) && (any (λ c. c == b'@') address && not (any unsafe_in_path address))
