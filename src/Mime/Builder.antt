-- ===== src/Mime/Builder.antt =====
-- crates/lagoon-mail/src/mime/builder.rs: the header block and the parts of an outgoing message. Base64
-- and UTF-8 are parameters, and so are the text of the date, the digest of a boundary and the random
-- Message-ID.
pub mod Unbroken
pub mod Rows
use lagoon_email.Prelude.{
  ℕ, zero, suc, ◌+◌, ◌-◌, ◌/◌, ◌%◌, Text, codes, text_eq, Bool, true, false, not, ◌&&◌, ◌||◌,
  Option, none, some, List, [], ◌∷◌, ◌++◌, map, ◌==◌, leb, ltb, if◌then◌else◌, any, all, filter,
  length, lower, trim,
}
use lagoon_email.Smtp.Stuffing.{join_crlf}
use lagoon_email.Mime.Headers.{after_prefix}
use lagoon_email.Mime.Addresses.{split_address_list}

pub record OutboundAttachment : Type 0 where
  pub filename : Text
  pub mime_type : Text
  pub bytes : Text
  pub disposition : Text

pub record OutboundMessage : Type 0 where
  pub from_email : Text
  pub from_name : Option Text
  pub to : Text
  pub cc : List Text
  pub bcc : List Text
  pub subject : Text
  pub body : Text
  pub in_reply_to : Option Text
  pub references : Option Text
  pub attachments : List OutboundAttachment

-- What the builder is given.
pub record Tools : Type 0 where
  pub base64 : Text → Text
  pub utf8 : Text → Text
  pub date : Text
  pub digest : Text

-- the characters that `header_safe` lets through
abbrev pub is_header_char : ℕ → Bool
is_header_char c = not (c == 10) && (not (c == 13) && not (c == 0))

unfoldable pub header_safe : Text → Text
header_safe value = filter is_header_char value

abbrev pub is_prefixed : Text → Bool
is_prefixed value = elim (after_prefix (codes "re:") (map lower value)) [
  | none ↦ false
  | some rest ↦ true
]

-- The run from the first character on that is not ASCII becomes an encoded word.
unfoldable pub encode_tail : (Text → Text) → Text → Text
encode_tail base64 [] = []
encode_tail base64 (c ∷ cs) =
    let rest = encode_tail base64 cs in
    if ltb c 0x80 then c ∷ rest else codes "=?UTF-8?B?" ++ (base64 (c ∷ cs) ++ codes "?=")

unfoldable pub subject_header : Tools → Text → Bool → Text
subject_header tools value add_reply_prefix =
    encode_tail (λ t. tools.base64 (tools.utf8 t))
      (if add_reply_prefix && not (is_prefixed value) then codes "Re: " ++ value else value)

abbrev pub is_ascii : Text → Bool
is_ascii t = all (λ c. ltb c 0x80) t

abbrev pub named : Tools → Text → Text → Text
named tools email name =
    if text_eq name []
    then codes "<" ++ (email ++ codes ">")
    else if is_ascii name
    then codes "\"" ++ (name ++ (codes "\" <" ++ (email ++ codes ">")))
    else codes "=?UTF-8?B?"
      ++ (tools.base64 (tools.utf8 name) ++ (codes "?= <" ++ (email ++ codes ">")))

unfoldable pub address : Tools → Text → Option Text → Text
address tools email none = codes "<" ++ (header_safe email ++ codes ">")
address tools email (some name) = named tools (header_safe email) (header_safe name)

abbrev pub bracketed : Text → Text
bracketed t = if any (λ c. c == b'<') t then t else codes "<" ++ (t ++ codes ">")

unfoldable pub join_comma : List Text → Text
join_comma [] = []
join_comma (t ∷ []) = t
join_comma (t ∷ u ∷ ts) = t ++ (codes ", " ++ join_comma (u ∷ ts))

unfoldable pub bracketed_all : List Text → List Text
bracketed_all [] = []
bracketed_all (t ∷ ts) = bracketed t ∷ bracketed_all ts

unfoldable pub address_list : Text → Text
address_list raw = join_comma (bracketed_all (split_address_list (header_safe raw)))

abbrev pub cc_line : List Text → List Text
cc_line [] = []
cc_line (c ∷ cs) = (codes "Cc: " ++ address_list (join_comma (c ∷ cs))) ∷ []

abbrev pub thread_line : Text → Option Text → List Text
thread_line field none = []
thread_line field (some value) = if text_eq value [] then [] else (field ++ header_safe value) ∷ []

abbrev pub thread_lines : Bool → OutboundMessage → List Text
thread_lines false o = []
thread_lines true o =
    thread_line (codes "In-Reply-To: ") o.in_reply_to
    ++ thread_line (codes "References: ") o.references

-- the lines of the header block, in their order
unfoldable pub header_lines : Tools → OutboundMessage → Text → Bool → List Text
header_lines tools o message_id reply =
    (codes "From: " ++ address tools o.from_email o.from_name)
    ∷ (codes "To: " ++ address_list o.to)
    ∷ (cc_line o.cc
        ++ ((codes "Subject: " ++ header_safe (subject_header tools o.subject reply))
            ∷ (codes "Date: " ++ tools.date)
            ∷ (codes "Message-ID: " ++ header_safe message_id)
            ∷ (thread_lines reply o ++ (codes "MIME-Version: 1.0" ∷ []))))

-- `base64_lines`: rows of 76 characters; the row so far is counted down
unfoldable pub rows : ℕ → Text → Text
rows left [] = []
rows zero (c ∷ cs) = 13 ∷ 10 ∷ c ∷ rows 75 cs
rows (suc left) (c ∷ cs) = c ∷ rows left cs

unfoldable pub base64_lines : Tools → Text → Text
base64_lines tools bytes = rows 76 (tools.base64 bytes)

unfoldable pub plain_text_body : Tools → Text → Text → Text
plain_text_body tools headers body =
    headers
    ++ (codes
          "\r\nContent-Type: text/plain; charset=UTF-8\r\nContent-Transfer-Encoding: base64\r\n\r\n"
        ++ (base64_lines tools (tools.utf8 body) ++ codes "\r\n"))

abbrev pub is_alphanumeric : ℕ → Bool
is_alphanumeric c =
    (leb b'0' c && leb c b'9') || ((leb b'A' c && leb c b'Z') || (leb b'a' c && leb c b'z'))

abbrev pub is_type_char : ℕ → Bool
is_type_char c = is_alphanumeric c || any (λ d. d == c) (codes "/-+.=;")

abbrev pub is_type : Text → Bool
is_type t =
    not (text_eq t []) && (leb (length t) 128 && (any (λ c. c == b'/') t && all is_type_char t))

unfoldable pub content_type : Text → Text
content_type raw =
    if is_type (trim (header_safe raw))
    then trim (header_safe raw)
    else codes "application/octet-stream"

abbrev pub unquote : ℕ → ℕ
unquote c = if c == b'"' then 39 else c

unfoldable pub filename : Text → Text
filename raw =
    let sanitized = trim (map unquote (filter (λ c. not (c == 13) && not (c == 10)) raw)) in
    if text_eq sanitized [] then codes "attachment" else sanitized

abbrev pub hex_digit : ℕ → ℕ
hex_digit n = if ltb n 10 then n + 48 else n + 55

abbrev pub is_unreserved : ℕ → Bool
is_unreserved c = is_alphanumeric c || any (λ d. d == c) (codes "-._~")

unfoldable pub percent_bytes : Text → Text
percent_bytes [] = []
percent_bytes (c ∷ cs) =
    let rest = percent_bytes cs in
    if is_unreserved c then c ∷ rest else b'%' ∷ hex_digit (c / 16) ∷ hex_digit (c % 16) ∷ rest

unfoldable pub content_disposition : Tools → OutboundAttachment → Text
content_disposition tools a =
    a.disposition
    ++ (codes "; filename=\""
        ++ (filename a.filename
            ++ (codes "\"; filename*=UTF-8''" ++ percent_bytes (tools.utf8 (filename a.filename)))))

unfoldable pub part : Tools → Text → OutboundAttachment → Text
part tools boundary a =
    codes "--"
    ++ (boundary
        ++ (codes "\r\nContent-Type: "
            ++ (content_type a.mime_type
                ++ (codes "\r\nContent-Transfer-Encoding: base64\r\nContent-Disposition: "
                    ++ (content_disposition tools a
                        ++ (codes "\r\n\r\n" ++ (base64_lines tools a.bytes ++ codes "\r\n")))))))

unfoldable pub parts : Tools → Text → List OutboundAttachment → Text
parts tools boundary [] = []
parts tools boundary (a ∷ as') = part tools boundary a ++ parts tools boundary as'

abbrev pub take : ℕ → Text → Text
take zero t = []
take (suc n) [] = []
take (suc n) (c ∷ cs) = c ∷ take n cs

abbrev pub or_lagoon : Text → Text
or_lagoon seed = if text_eq seed [] then codes "lagoon" else seed

unfoldable pub boundary_token : Tools → OutboundMessage → Text
boundary_token tools o =
    or_lagoon (take 8 (filter is_alphanumeric o.from_email)) ++ (codes "-" ++ tools.digest)

unfoldable pub multipart_mixed : Tools → Text → OutboundMessage → Text
multipart_mixed tools headers o =
    let boundary = codes "lagoon-" ++ boundary_token tools o in
    headers
    ++ (codes "\r\nContent-Type: multipart/mixed; boundary=\""
        ++ (boundary
            ++ (codes "\"\r\n\r\n--"
                ++ (boundary
                    ++ (codes
                          "\r\nContent-Type: text/plain; charset=UTF-8\r\nContent-Transfer-Encoding: base64\r\n\r\n"
                        ++ (base64_lines tools (tools.utf8 o.body)
                            ++ (codes "\r\n"
                                ++ (parts tools boundary o.attachments
                                    ++ (codes "--" ++ (boundary ++ codes "--\r\n"))))))))))

abbrev pub body_of : Tools → Text → OutboundMessage → List OutboundAttachment → Text
body_of tools headers o [] = plain_text_body tools headers o.body
body_of tools headers o (a ∷ as') = multipart_mixed tools headers o

unfoldable pub build : Tools → OutboundMessage → Text → Bool → Text
build tools o message_id reply =
    body_of tools (join_crlf (header_lines tools o message_id reply)) o o.attachments
