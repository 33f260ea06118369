-- ===== src/Mime/Builder/Unbroken.antt =====
-- The header block of an outgoing message has exactly the lines that the builder puts there.
use lagoon_email.Prelude.{
  Text, codes, text_eq, Bool, true, false, Option, none, some, List, [], ◌∷◌, ◌++◌, ◌==◌, any,
  filter, ◌≡◌, refl, ap, ◌∙◌, arith, All, if◌then◌else◌,
}
use lagoon_email.Smtp.Stuffing.{split_crlf, join_crlf}
use lagoon_email.Smtp.Stuffing.Received.{IsLine, split_crlf-append, split_crlf-pushed}
use lagoon_email.Mime.Addresses.Unbroken.{
  Unbroken, append-Unbroken, All-append, split_address_list-Unbroken,
}
use lagoon_email.Mime.Builder.{
  Tools, OutboundMessage, OutboundAttachment, header_safe, is_ascii, named, address, bracketed_all,
  join_comma, address_list, cc_line, thread_line, thread_lines, header_lines, subject_header, build,
  body_of, multipart_mixed, boundary_token,
}

header_safe-Unbroken : (t : Text) → Unbroken (header_safe t)
unfolding header_safe filter any
header_safe-Unbroken [] = refl
header_safe-Unbroken (c ∷ cs) = ground (arith, header_safe-Unbroken cs)

bracketed_all-Unbroken : (ts : List Text) → All Unbroken ts → All Unbroken (bracketed_all ts)
unfolding bracketed_all any
bracketed_all-Unbroken [] a = tt
bracketed_all-Unbroken (t ∷ ts) (h, a) = (one (any (λ c. c == b'<') t), bracketed_all-Unbroken ts a)
  where
    one : (b : Bool) → Unbroken (if b then t else codes "<" ++ (t ++ codes ">"))
    one true = h
    one false = append-Unbroken t (codes ">") h refl

join_comma-Unbroken : (ts : List Text) → All Unbroken ts → Unbroken (join_comma ts)
unfolding join_comma any
join_comma-Unbroken [] a = refl
join_comma-Unbroken (t ∷ []) (h, a) = h
join_comma-Unbroken (t ∷ u ∷ ts) (h, a) =
    append-Unbroken t (codes ", " ++ join_comma (u ∷ ts)) h (join_comma-Unbroken (u ∷ ts) a)

address_list-Unbroken : (raw : Text) → Unbroken (address_list raw)
unfolding address_list
address_list-Unbroken raw = join_comma-Unbroken _ (
    bracketed_all-Unbroken _
      (split_address_list-Unbroken (header_safe raw) (header_safe-Unbroken raw)))

Unbroken-IsLine : (t : Text) → Unbroken t → IsLine t
unfolding any split_crlf
Unbroken-IsLine [] h = refl
Unbroken-IsLine (c ∷ []) h = refl
Unbroken-IsLine (c ∷ d ∷ cs) h =
    split_crlf-pushed c d cs (ground (arith, h))
    ∙ rw (Unbroken-IsLine (d ∷ cs) (ground (arith, h))) refl

split_crlf-join_crlf :
    (t : Text) (ts : List Text) → All Unbroken (t ∷ ts) → split_crlf (join_crlf (t ∷ ts)) ≡ t ∷ ts
unfolding join_crlf
split_crlf-join_crlf t [] (h, a) = Unbroken-IsLine t h
split_crlf-join_crlf t (u ∷ ts) (h, a) =
    split_crlf-append t (join_crlf (u ∷ ts))
    ∙ rw (Unbroken-IsLine t h, split_crlf-join_crlf u ts a) refl

module _ (tools : Tools) (encoded : (t : Text) → Unbroken (tools.base64 t))
    (dated : Unbroken tools.date) where
  named-Unbroken :
      (email name : Text) → Unbroken email → Unbroken name → Unbroken (named tools email name)
  unfolding any
  named-Unbroken email name h k = bare (text_eq name [])
    where
      ending : Unbroken (email ++ codes ">")
      ending = append-Unbroken email (codes ">") h refl

      quoted_or_encoded :
          (b : Bool)
          → Unbroken (
              if b
              then codes "\"" ++ (name ++ (codes "\" <" ++ (email ++ codes ">")))
              else codes "=?UTF-8?B?"
                ++ (tools.base64 (tools.utf8 name) ++ (codes "?= <" ++ (email ++ codes ">"))))
      quoted_or_encoded true = append-Unbroken name (codes "\" <" ++ (email ++ codes ">")) k ending
      quoted_or_encoded false =
          append-Unbroken (tools.base64 (tools.utf8 name)) (codes "?= <" ++ (email ++ codes ">"))
            (encoded (tools.utf8 name)) ending

      bare :
          (b : Bool)
          → Unbroken (
              if b
              then codes "<" ++ (email ++ codes ">")
              else if is_ascii name
              then codes "\"" ++ (name ++ (codes "\" <" ++ (email ++ codes ">")))
              else codes "=?UTF-8?B?"
                ++ (tools.base64 (tools.utf8 name) ++ (codes "?= <" ++ (email ++ codes ">"))))
      bare true = ending
      bare false = quoted_or_encoded (is_ascii name)

  address-Unbroken : (email : Text) (name : Option Text) → Unbroken (address tools email name)
  unfolding address any
  address-Unbroken email none =
      append-Unbroken (header_safe email) (codes ">") (header_safe-Unbroken email) refl
  address-Unbroken email (some name) =
      named-Unbroken (header_safe email) (header_safe name) (header_safe-Unbroken email)
        (header_safe-Unbroken name)

  cc_line-Unbroken : (cc : List Text) → All Unbroken (cc_line cc)
  unfolding any
  cc_line-Unbroken [] = tt
  cc_line-Unbroken (c ∷ cs) = (address_list-Unbroken (join_comma (c ∷ cs)), tt)

  thread_line-Unbroken :
      (field : Text) (value : Option Text) → Unbroken field → All Unbroken (thread_line field value)
  thread_line-Unbroken field none h = tt
  thread_line-Unbroken field (some value) h = filled (text_eq value [])
    where
      filled : (b : Bool) → All Unbroken (if b then [] else (field ++ header_safe value) ∷ [])
      filled true = tt
      filled false = (append-Unbroken field (header_safe value) h (header_safe-Unbroken value), tt)

  thread_lines-Unbroken : (reply : Bool) (o : OutboundMessage) → All Unbroken (thread_lines reply o)
  unfolding any
  thread_lines-Unbroken false o = tt
  thread_lines-Unbroken true o =
      All-append (thread_line (codes "In-Reply-To: ") o.in_reply_to) _
        (thread_line-Unbroken (codes "In-Reply-To: ") o.in_reply_to refl)
        (thread_line-Unbroken (codes "References: ") o.references refl)

  header_lines-Unbroken :
      (o : OutboundMessage) (message_id : Text) (reply : Bool)
      → All Unbroken (header_lines tools o message_id reply)
  unfolding header_lines any
  header_lines-Unbroken o message_id reply = (
    address-Unbroken o.from_email o.from_name,
    (
      address_list-Unbroken o.to,
      All-append (cc_line o.cc) _ (cc_line-Unbroken o.cc) (
        header_safe-Unbroken (subject_header tools o.subject reply),
        (
          dated,
          (
            header_safe-Unbroken message_id,
            All-append (thread_lines reply o) (codes "MIME-Version: 1.0" ∷ [])
                (thread_lines-Unbroken reply o) (refl, tt),
          ),
        ),
      ),
    ),
  )

  -- Whatever the fields of a mail hold, the header block that is sent splits at CRLF into the lines that
  -- the builder means, in their order, and no line has a CR or an LF of its own, if the base64 and the
  -- date have none: no subject, name, address or id adds a header line.
  pub split_crlf-header_lines :
      (o : OutboundMessage) (message_id : Text) (reply : Bool)
      → (split_crlf (join_crlf (header_lines tools o message_id reply))
          ≡ header_lines tools o message_id reply)
        × All Unbroken (header_lines tools o message_id reply)
  unfolding header_lines
  split_crlf-header_lines o message_id reply = (
    split_crlf-join_crlf (codes "From: " ++ address tools o.from_email o.from_name) _
        (header_lines-Unbroken o message_id reply),
    header_lines-Unbroken o message_id reply,
  )

thread_lines-hides_bcc :
    (reply : Bool) (o : OutboundMessage) (bcc : List Text)
    → thread_lines reply (record o { bcc = bcc }) ≡ thread_lines reply o
thread_lines-hides_bcc true o bcc = refl
thread_lines-hides_bcc false o bcc = refl

body_of-hides_bcc :
    (tools : Tools) (headers : Text) (o : OutboundMessage) (bcc : List Text)
    (attachments : List OutboundAttachment)
    → body_of tools headers (record o { bcc = bcc }) attachments
      ≡ body_of tools headers o attachments
unfolding multipart_mixed boundary_token
body_of-hides_bcc tools headers o bcc [] = refl
body_of-hides_bcc tools headers o bcc (a ∷ more) = refl

-- The blind recipients do not show: two mails that differ only in them are the same bytes.
pub build-hides_bcc :
    (tools : Tools) (o : OutboundMessage) (bcc : List Text) (message_id : Text) (reply : Bool)
    → build tools (record o { bcc = bcc }) message_id reply ≡ build tools o message_id reply
unfolding build header_lines
build-hides_bcc tools o bcc message_id reply =
    ap
      (λ lines.
        body_of tools
          (join_crlf (
            (codes "From: " ++ address tools o.from_email o.from_name)
            ∷ (codes "To: " ++ address_list o.to)
            ∷ (cc_line o.cc
                ++ ((codes "Subject: " ++ header_safe (subject_header tools o.subject reply))
                    ∷ (codes "Date: " ++ tools.date)
                    ∷ (codes "Message-ID: " ++ header_safe message_id)
                    ∷ (lines ++ (codes "MIME-Version: 1.0" ∷ []))))))
          (record o { bcc = bcc }) o.attachments)
      (thread_lines-hides_bcc reply o bcc)
    ∙ body_of-hides_bcc tools _ o bcc o.attachments
