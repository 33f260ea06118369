-- ===== src/Mime/Words/Sent.antt =====
-- The subject that the builder writes is read back.
use lagoon_email.Prelude.{ℕ, Text, codes, Bool, ◌==◌}
use lagoon_email.Prelude.{ltb, not, ◌&&◌}
use lagoon_email.Mime.Words.{Word}

abbrev utf8_word : Text → Word
utf8_word word = record { charset = codes "UTF-8"; encoding = b'B'; payload = word }

-- a character that stands for itself and begins no encoded word
abbrev pub is_plain : ℕ → Bool
is_plain c = ltb c 0x80 && not (c == b'=')
