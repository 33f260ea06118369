-- ===== src/Imap/Quoting.antt =====
-- `ImapClient::quoted` of crates/lagoon-mail/src/imap/client.rs. A character is its code point.
use lagoon_email.Prelude.{
  ℕ, Text, codes, Bool, ◌||◌, [], ◌∷◌, ◌++◌, Result, ok, err, ◌==◌, ltb, any, if◌then◌else◌,
}
use lagoon_email.Mail.Error.{MailError, protocol}

abbrev pub quote_mark : ℕ
quote_mark = b'"'

abbrev pub backslash : ℕ
backslash = b'\\'

-- `(ch as u32) < 0x20 || ch as u32 == 0x7F`
unfoldable pub is_control : ℕ → Bool
is_control c = ltb c 0x20 || c == 0x7f

-- `value.replace(c, with)`
unfoldable pub replace : ℕ → Text → Text → Text
replace c with [] = []
replace c with (x ∷ xs) = let rest = replace c with xs in if x == c then with ++ rest else x ∷ rest

-- Backslashes are doubled first, then quotation marks are escaped.
unfoldable pub escape : Text → Text
escape value =
    replace quote_mark (backslash ∷ quote_mark ∷ [])
      (replace backslash (backslash ∷ backslash ∷ []) value)

unfoldable pub quoted : Text → Result MailError Text
quoted value =
    if any is_control value
    then err (protocol (codes "control-char-in-argument"))
    else ok (quote_mark ∷ (escape value ++ quote_mark ∷ []))
