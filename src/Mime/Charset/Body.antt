-- ===== src/Mime/Charset/Body.antt =====
-- A body that is sent in base64 is read back.
use lagoon_email.Prelude.{
  ℕ, suc, zero, ◌%◌, Text, text_eq, false, ◌||◌, some, List, [], ◌∷◌, ◌≡◌, refl, arith, any, filter,
  length, append-nil,
}
use lagoon_email.Mime.Builder.{Tools, rows, base64_lines}
use lagoon_email.Mime.Charset.{
  Decoders, is_ascii_whitespace, without_whitespace, is_padding, base64_decode,
}

without_whitespace-rows :
    (left : ℕ) (t : Text) → any is_ascii_whitespace t ≡ false → without_whitespace (rows left t) ≡ t
unfolding any rows filter
without_whitespace-rows left [] h = refl
without_whitespace-rows zero (c ∷ cs) h =
    ground (arith, h, without_whitespace-rows 75 cs (ground (arith, h)))
without_whitespace-rows (suc left) (c ∷ cs) h =
    ground (arith, h, without_whitespace-rows left cs (ground (arith, h)))

-- A part that is sent in base64 is read back: where the encoder writes whole groups of four characters
-- without a space, not of padding alone, and the decoder of the library reads them, the lines that the
-- builder writes decode to the bytes of the part.
pub base64_decode-base64_lines :
    (tools : Tools) (d : Decoders) (bytes : List ℕ)
    → any is_ascii_whitespace (tools.base64 bytes) ≡ false
    → length (tools.base64 bytes) % 4 ≡ 0
    → (text_eq (tools.base64 bytes) [] || is_padding (tools.base64 bytes)) ≡ false
    → d.base64 (tools.base64 bytes) ≡ some bytes
    → base64_decode d (base64_lines tools bytes) ≡ some bytes
unfolding base64_decode base64_lines
base64_decode-base64_lines tools d bytes dense whole filled read =
    rw
      (
        without_whitespace-rows 76 (tools.base64 bytes) dense,
        whole,
        filled,
        append-nil (tools.base64 bytes),
      )
      read
