-- ===== src/Tests/Mime.antt =====
-- A reply with a hostile subject and a blind copy.
use lagoon_email.Prelude.{
  ◌≤◌, Text, text_eq, codes, true, none, some, [], ◌∷◌, ◌≡◌, refl, any, contains, trim, trim_start,
  lower, map, filter,
}
use lagoon_email.Mime.Headers.{after_prefix}
use lagoon_email.Smtp.Stuffing.{split_crlf, join_crlf}
use lagoon_email.Api.Send.Recipients.{rfind, drop, take}
use lagoon_email.Mime.Addresses.{split_address_list, trimmed_pieces, read_chars, read_char}
use lagoon_email.Mime.Builder.{
  Tools, OutboundMessage, header_lines, subject_header, encode_tail, header_safe,
}
use lagoon_email.Mime.Builder.Unbroken.{split_crlf-header_lines}
use lagoon_email.Mime.Recipients.{
  envelope_recipients, without_angles, skip_angles, parse_address_list, recipient_addresses,
  address_of, strip_trailing_comment, insert_all,
}
use lagoon_email.Mime.Recipients.Envelope.{keys, occurrences, envelope_recipients_complete}
use lagoon_email.Mime.Builder.Rows.{flat, IsRow, base64_lines-rows}
use lagoon_email.Mime.Builder.{base64_lines, percent_bytes}
use lagoon_email.Mime.Parameters.{decode_rfc5987, header_parameter, first_value, segments}
use lagoon_email.Mime.Parameters.Names.{decode_rfc5987-percent_bytes}
use lagoon_email.Prelude.{◌++◌, List, All, arith}
use lagoon_email.Mime.Charset.{Decoders, base64_decode, decode_quoted_printable, decode_charset}
use lagoon_email.Mime.Charset.Body.{base64_decode-base64_lines}
use lagoon_email.Mime.Charset.Quoted.{Piece, written, meant, decode_quoted_printable-written}
use lagoon_email.Prelude.{all}
use lagoon_email.Mime.Words.{decode_rfc2047, scan, parse_encoded_word, decode_encoded_payload}
use lagoon_email.Mime.Addresses.Unbroken.{Unbroken}
use lagoon_email.Mime.Headers.{find_subslice}
use lagoon_email.Prelude.{all, split_once}

abbrev tools : Tools
tools = record { base64 = λ t. []; utf8 = λ t. t; date = codes "now"; digest = codes "1f" }

abbrev answer : OutboundMessage
answer = record {
  from_email = codes "a@b";
  from_name = none;
  to = codes "<c@d>, C@d";
  cc = [];
  bcc = codes "e@f (Eve)" ∷ [];
  subject = codes "hi\r\nBcc: x@y";
  body = codes "text";
  in_reply_to = some (codes "<1@b>");
  references = none;
  attachments = [];
}

-- A line end in a subject is dropped.
subject_line : header_safe (subject_header tools answer.subject true) ≡ codes "Re: hiBcc: x@y"
unfolding header_safe subject_header encode_tail filter after_prefix
subject_line = refl

-- The second spelling of the first recipient is dropped, and the blind one is kept.
two_recipients : envelope_recipients answer ≡ codes "c@d" ∷ codes "e@f" ∷ []
unfolding envelope_recipients insert_all without_angles skip_angles parse_address_list
    recipient_addresses address_of strip_trailing_comment rfind drop take split_address_list
    trimmed_pieces read_chars read_char trim trim_start text_eq any contains
two_recipients = refl

split_crlf-header_lines_example :
    (split_crlf (join_crlf (header_lines tools answer (codes "<2@b>") true))
      ≡ header_lines tools answer (codes "<2@b>") true)
    × All Unbroken (header_lines tools answer (codes "<2@b>") true)
unfolding any
split_crlf-header_lines_example =
    split_crlf-header_lines tools (λ t. refl) refl answer (codes "<2@b>") true

envelope_recipients_complete_example :
    (contains (keys (envelope_recipients answer)) (map lower (without_angles (codes "e@f"))) ≡ true)
    × ((k : Text) → occurrences k (keys (envelope_recipients answer)) ≤ 1)
unfolding parse_address_list recipient_addresses address_of without_angles skip_angles
    strip_trailing_comment rfind drop take split_address_list trimmed_pieces read_chars read_char
    trim trim_start text_eq any contains
envelope_recipients_complete_example = envelope_recipients_complete answer (codes "e@f") refl refl

abbrev plain_base64 : Tools
plain_base64 = record { base64 = λ t. t; utf8 = λ t. t; date = codes "now"; digest = codes "1f" }

base64_lines-rows_example :
    All IsRow (split_crlf (base64_lines plain_base64 (codes "dGV4dA==")))
    × (flat (split_crlf (base64_lines plain_base64 (codes "dGV4dA=="))) ≡ codes "dGV4dA==")
unfolding any
base64_lines-rows_example = base64_lines-rows plain_base64 (codes "dGV4dA==") refl

-- A name of two bytes that are not ASCII.
abbrev name_bytes : Text
name_bytes = 0xc3 ∷ 0xa9 ∷ []

decode_rfc5987-percent_bytes_example :
    decode_rfc5987 (λ t. t) (λ bytes charset. bytes) (codes "UTF-8''" ++ percent_bytes name_bytes)
    ≡ some name_bytes
unfolding text_eq
decode_rfc5987-percent_bytes_example =
    decode_rfc5987-percent_bytes (λ t. t) (λ bytes charset. bytes) name_bytes
      (omega arith, (omega arith, tt)) refl refl

-- A semicolon between quotes ends the parameter.
cut_name :
    header_parameter (codes "attachment; filename=\"a; filename*=b\"") (codes "filename*")
    ≡ some (codes "b\"")
unfolding header_parameter first_value segments trim trim_start text_eq after_prefix
cut_name = refl

abbrev decoders : Decoders
decoders = record {
  as_bytes = λ t. t;
  from_utf8 = λ bytes. none;
  from_utf8_lossy = λ bytes. bytes;
  gb18030 = λ bytes. none;
  for_label = λ label. none;
  base64 = λ t. some t;
}

-- Bytes that are not UTF-8 are read as Latin-1 when a lenient decoding loses too many of them.
lost_text :
    decode_charset (record decoders { from_utf8_lossy = λ bytes. 0xfffd ∷ [] }) (0xe9 ∷ []) none
    ≡ 0xe9 ∷ []
unfolding decode_charset contains text_eq filter
lost_text = refl

base64_decode-base64_lines_example :
    base64_decode decoders (base64_lines plain_base64 (codes "dGV4dA==")) ≡ some (codes "dGV4dA==")
unfolding any text_eq all
base64_decode-base64_lines_example =
    base64_decode-base64_lines plain_base64 decoders (codes "dGV4dA==") refl refl refl refl

abbrev pieces : List Piece
pieces = Piece.literal b'a' ∷ Piece.soft_crlf ∷ Piece.escape 0xe9 ∷ Piece.soft_lf ∷ []

decode_quoted_printable-written_example : decode_quoted_printable (written pieces) ≡ meant pieces
decode_quoted_printable-written_example =
    decode_quoted_printable-written pieces ((refl, refl), (tt, (omega arith, (tt, tt))))

abbrev utf8_decoders : Decoders
utf8_decoders = record decoders { from_utf8 = λ bytes. some bytes }

-- The space between two encoded words is dropped, and a word that is cut off stays as it is.
three_words :
    decode_rfc2047 utf8_decoders (codes "a =?utf-8?Q?b_c?= =?utf-8?q?d?= =?x") ≡ codes "a b cd =?x"
unfolding decode_rfc2047 find_subslice after_prefix scan parse_encoded_word decode_encoded_payload
    decode_charset decode_quoted_printable split_once text_eq any trim trim_start contains
three_words = refl
