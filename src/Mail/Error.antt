-- ===== src/Mail/Error.antt =====
-- crates/lagoon-mail/src/error.rs: typed mail failures. A code is the text of a `&'static str`; the
-- `ErrorKind` of an input or output failure is a number, but for the kinds that the code names.
pub mod Session
use lagoon_email.Prelude.{
  ℕ, Text, codes, text_eq, Bool, true, false, Option, none, some, List, [], ◌∷◌, ◌++◌,
  if◌then◌else◌,
}

pub data MailErrorKind : Type 0 where
  auth_failed_kind unreachable_kind protocol_kind message_gone_kind : MailErrorKind
  archive_unavailable_kind trash_unavailable_kind sent_unavailable_kind : MailErrorKind
  not_configured_kind account_missing_kind missing_capability_kind : MailErrorKind
  unsafe_operation_kind too_large_kind attachment_not_found_kind : MailErrorKind

unfoldable pub label : MailErrorKind → Text
label auth_failed_kind = codes "auth-failed"
label unreachable_kind = codes "unreachable"
label protocol_kind = codes "protocol-error"
label message_gone_kind = codes "message-gone"
label archive_unavailable_kind = codes "archive-unavailable"
label trash_unavailable_kind = codes "trash-unavailable"
label sent_unavailable_kind = codes "sent-unavailable"
label not_configured_kind = codes "not-configured"
label account_missing_kind = codes "account-missing"
label missing_capability_kind = codes "capability-missing"
label unsafe_operation_kind = codes "unsafe-operation"
label too_large_kind = codes "too-large"
label attachment_not_found_kind = codes "attachment-not-found"

pub record MailError : Type 0 where
  pub kind : MailErrorKind
  pub code : Text
  pub status : Option ℕ

unfoldable pub new : MailErrorKind → Text → MailError
new kind code = record { kind = kind; code = code; status = none }

unfoldable pub with_status : MailErrorKind → Text → ℕ → MailError
with_status kind code status = record { kind = kind; code = code; status = some status }

unfoldable pub auth_failed : MailError
unfolding new
auth_failed = new auth_failed_kind (codes "auth-failed")

unfoldable pub unreachable : Text → MailError
unfolding new
unreachable code = new unreachable_kind code

unfoldable pub unreachable_status : Text → ℕ → MailError
unfolding with_status
unreachable_status code status = with_status unreachable_kind code status

unfoldable pub protocol : Text → MailError
unfolding new
protocol code = new protocol_kind code

unfoldable pub protocol_status : Text → ℕ → MailError
unfolding with_status
protocol_status code status = with_status protocol_kind code status

unfoldable pub message_gone : MailError
unfolding new
message_gone = new message_gone_kind (codes "message-gone")

unfoldable pub archive_unavailable : MailError
unfolding new
archive_unavailable = new archive_unavailable_kind (codes "archive-unavailable")

unfoldable pub trash_unavailable : MailError
unfolding new
trash_unavailable = new trash_unavailable_kind (codes "trash-unavailable")

unfoldable pub sent_unavailable : MailError
unfolding new
sent_unavailable = new sent_unavailable_kind (codes "sent-unavailable")

unfoldable pub not_configured : Text → MailError
unfolding new
not_configured code = new not_configured_kind code

unfoldable pub account_missing : MailError
unfolding new
account_missing = new account_missing_kind (codes "account-missing")

unfoldable pub missing_capability : Text → MailError
unfolding new
missing_capability code = new missing_capability_kind code

unfoldable pub unsafe_operation : Text → MailError
unfolding new
unsafe_operation code = new unsafe_operation_kind code

unfoldable pub too_large : Text → MailError
unfolding new
too_large code = new too_large_kind code

unfoldable pub attachment_not_found : MailError
unfolding new
attachment_not_found = new attachment_not_found_kind (codes "attachment-not-found")

unfoldable pub is_auth_failed : MailError → Bool
is_auth_failed e = elim e.kind [ auth_failed_kind ↦ true | _ ↦ false ]

abbrev pub verdict_kind : MailErrorKind → Bool
verdict_kind auth_failed_kind = false
verdict_kind unreachable_kind = false
verdict_kind not_configured_kind = false
verdict_kind account_missing_kind = false
verdict_kind _ = true

-- `is_message_verdict`: the session is still aligned
unfoldable pub is_message_verdict : MailError → Bool
is_message_verdict e = verdict_kind e.kind

-- `Display`, on the digits of the status
abbrev after_code : Option Text → Text
after_code none = []
after_code (some digits) = codes " " ++ digits

abbrev after_label : Option Text → Text
after_label none = []
after_label (some digits) = codes " [" ++ (digits ++ codes "]")

abbrev print_status : (ℕ → Text) → Option ℕ → Option Text
print_status digits none = none
print_status digits (some n) = some (digits n)

unfoldable pub display : (ℕ → Text) → MailError → Text
display digits e =
    label e.kind
    ++ (if text_eq e.code (label e.kind)
        then after_label (print_status digits e.status)
        else codes " (" ++ (e.code ++ (after_code (print_status digits e.status) ++ codes ")")))

pub data ErrorKind : Type 0 where
  unexpected_eof would_block timed_out_kind : ErrorKind
  other_kind : ℕ → ErrorKind

pub data TransportError : Type 0 where
  not_connected closed timed_out : TransportError
  malformed : Text → TransportError
  io : ErrorKind → TransportError
  tls : Text → TransportError

unfoldable pub is_timed_out : TransportError → Bool
is_timed_out timed_out = true
is_timed_out _ = false

pub data Channel : Type 0 where
  imap smtp : Channel

abbrev pub on : Channel → Text → Text → Text
on imap a b = a
on smtp a b = b

unfoldable pub to_mail : Channel → TransportError → MailError
unfolding unreachable protocol
to_mail c timed_out = unreachable (on c (codes "imap-timeout") (codes "smtp-timeout"))
to_mail c closed = unreachable (on c (codes "imap-closed") (codes "smtp-closed"))
to_mail c not_connected =
    unreachable (on c (codes "imap-not-connected") (codes "smtp-not-connected"))
to_mail c (tls m) = unreachable (on c (codes "imap-tls") (codes "smtp-tls"))
to_mail c (malformed m) = protocol (on c (codes "imap-malformed") (codes "smtp-malformed"))
to_mail c (io k) = unreachable (on c (codes "imap-transport") (codes "smtp-transport"))

-- `From<std::io::Error>`
unfoldable pub from_io : ErrorKind → TransportError
from_io unexpected_eof = closed
from_io would_block = timed_out
from_io timed_out_kind = timed_out
from_io (other_kind n) = io (other_kind n)
