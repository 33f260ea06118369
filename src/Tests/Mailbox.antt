-- ===== src/Tests/Mailbox.antt =====
-- Operations on a small IMAP server, which answers every command with the same lines.
use lagoon_email.Prelude.{
  Text, codes, List, [], ◌∷◌, Option, none, some, Result, ok, err, ℤ, pos, ◌≡◌, refl, true, false,
  any, text_eq, contains, split_once, trim, trim_start, if◌then◌else◌,
}
use lagoon_email.Mail.Error.{MailError, protocol, new}
use lagoon_email.Imap.Quoting.{quoted, is_control, escape, replace}
use lagoon_email.Imap.Parser.{ImapResponse, untagged, is_untagged, atom_at}
use lagoon_email.Imap.Membership.{Provider}
use lagoon_email.Imap.Client.{Link, World, line_of, give, ◌>>◌, ◌>>=◌, execute, chosen}
use lagoon_email.Imap.Client.Commands.{fetch_full_body}
use lagoon_email.Mime.Headers.{
  after_prefix, split_head_and_body, find_subslice, parse_header_block, header_lines, header_line,
  header_text, split_lines, strip_cr, put_header, get_header,
}
use lagoon_email.Imap.Client.Responses.{capability_names, first_literal}
use lagoon_email.Imap.Mailbox.Session.{
  with_session, with_inbox, ensure_live, ensure_session, enter, select_inbox,
}
use lagoon_email.Imap.Mailbox.Resolve.{message_id_of, is_mailbox_local_id}
use lagoon_email.Imap.Mailbox.Operations.{purge_of, empty, archive_of, after_all}
use lagoon_email.Imap.Mailbox.Kept.Backed.{backed, after_all-backed}
use lagoon_email.Imap.Mailbox.Kept.NoUidplus.{calm, after_all-calm}
use lagoon_email.Imap.Mailbox.Fetch.{fetch_at_stored_uid}
use lagoon_email.Imap.Mailbox.Fetch.Hint.{fetch_at_stored_uid-right}
use lagoon_email.Imap.Mailbox.Stale.{refused_select}

abbrev untagged_line : Text → List Text → ImapResponse
untagged_line raw atoms = record {
  kind = untagged;
  atoms = codes "*" ∷ atoms;
  literal = none;
  raw = raw;
}

abbrev uidplus_line : ImapResponse
uidplus_line =
    untagged_line (codes "* CAPABILITY UIDPLUS") (codes "CAPABILITY" ∷ codes "UIDPLUS" ∷ [])

abbrev trash_line : ImapResponse
trash_line =
    untagged_line (codes "* LIST (\\Trash) \"/\" Bin")
      (codes "LIST" ∷ codes "(\\Trash)" ∷ codes "/" ∷ codes "Bin" ∷ [])

abbrev found_line : ImapResponse
found_line = untagged_line (codes "* SEARCH 7") (codes "SEARCH" ∷ codes "7" ∷ [])

abbrev body_line : ImapResponse
body_line = record {
  kind = untagged;
  atoms = codes "*" ∷ [];
  literal = some (codes "Message-ID: <a@b>\r\n\r\nhi");
  raw = codes "* 1 FETCH (UID 7)";
}

abbrev digits : ℤ → Text
digits n = codes "7"

abbrev number_of : Text → Option ℤ
number_of t = if text_eq t (codes "7") then some (pos 7) else none

abbrev server : Result MailError (List ImapResponse) → Link (Unit {0})
server answer = record {
  execute = λ line s. (answer, s);
  append = λ mailbox message s. (ok tt, s);
  connect = λ s. (ok tt, s);
  close = λ s. s;
  is_connected = λ s. true;
  decimal = digits;
  base64 = λ t. t;
  username = codes "u";
  secret = codes "p";
  reading = record { integer = number_of; count = λ t. none; utf8 = λ t. some t };
}

abbrev full_server : Link (Unit {0})
full_server = server (ok (uidplus_line ∷ trash_line ∷ found_line ∷ body_line ∷ []))

abbrev plain_server : Link (Unit {0})
plain_server = server (ok (trash_line ∷ found_line ∷ []))

abbrev idle_provider : Provider
idle_provider = record {
  client = none;
  has_credentials = true;
  selected = none;
  capabilities = none;
  roles = none;
  archive_create_refused = false;
}

abbrev start : World (Unit {0})
start = record {
  provider = idle_provider;
  connection = tt;
  cached_capabilities = none;
  at = none;
  log = [];
}

after_all-backed_example :
    backed (after_all full_server (purge_of (codes "7") ∷ empty ∷ []) start).log ≡ true
unfolding backed
after_all-backed_example =
    after_all-backed full_server (purge_of (codes "7") ∷ empty ∷ []) start refl

after_all-calm_example :
    calm (after_all plain_server (purge_of (codes "7") ∷ archive_of (codes "7") ∷ []) start).log
    ≡ true
unfolding calm capability_names contains is_untagged atom_at text_eq
after_all-calm_example =
    after_all-calm plain_server (purge_of (codes "7") ∷ archive_of (codes "7") ∷ []) start
      (λ s. refl) refl tt

abbrev refusing : Link (Unit {0})
refusing = server (err (protocol (codes "tagged-NO")))

abbrev in_the_inbox : World (Unit {0})
in_the_inbox = record start {
  provider = record idle_provider {
    client = some true;
    selected = some (record { mailbox = codes "INBOX"; exists = 1 });
  };
  at = some (codes "INBOX");
}

refused_select_example :
    ((with_session refusing (enter refusing (codes "Old") >> give tt) in_the_inbox).1.at ≡ none)
    × (select_inbox refusing
          (with_session refusing (enter refusing (codes "Old") >> give tt) in_the_inbox).1
        ≡ (ok tt, (with_session refusing (enter refusing (codes "Old") >> give tt) in_the_inbox).1))
unfolding text_eq quoted escape replace any is_control protocol new
refused_select_example =
    refused_select refusing (codes "Old") (codes "\"Old\"") (give tt) in_the_inbox
      (protocol (codes "tagged-NO")) refl refl refl refl refl

fetch_at_stored_uid-right_example :
    message_id_of full_server.reading (codes "Message-ID: <a@b>\r\n\r\nhi") ≡ some (codes "<a@b>")
unfolding fetch_at_stored_uid is_mailbox_local_id text_eq after_prefix with_inbox with_session
    ensure_live ensure_session ◌>>=◌ select_inbox fetch_full_body execute line_of first_literal
    message_id_of split_head_and_body find_subslice parse_header_block header_lines header_line
    header_text split_lines strip_cr put_header get_header split_once trim trim_start chosen
fetch_at_stored_uid-right_example =
    fetch_at_stored_uid-right full_server (codes "<a@b>") (pos 7) in_the_inbox
      (codes "Message-ID: <a@b>\r\n\r\nhi") refl
