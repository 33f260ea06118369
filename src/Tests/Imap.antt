-- ===== src/Tests/Imap.antt =====
-- Command lines, responses and mailbox lists of a small session.
use lagoon_email.Prelude.{
  Text, List, none, ℤ, pos, int_eq, Option, ◌≤◌, codes, ◌≡◌, refl, true, false, some, [], ◌∷◌, ok,
  err, any, all, find, contains, text_eq, trim, trim_start,
}
use lagoon_email.Mail.Error.{unreachable}
use lagoon_email.Imap.Quoting.{is_control}
use lagoon_email.Imap.Parser.{tokenize}
use lagoon_email.Imap.Parser.Tokens.{Argument, word, string, write_line, tokenize-write_line}
use lagoon_email.Imap.Capabilities.{
  FolderRoles, ImapMailbox, Server, negotiate, is_archive_mailbox, default_archive_folder_name,
  verdicts, resolve_archive_folder, or_create, role_leaf, last_segment, has_special_use,
  after_create,
}
use lagoon_email.Imap.Capabilities.Gates.{Agrees, negotiate_gates}
use lagoon_email.Imap.Membership.{
  ImapSelected, ImapFetchedHeader, FolderMembership, Peer, Provider, collect_folder, gather,
  gather_one, has_uid, if_complete, remote_id_of, put_uid,
}
use lagoon_email.Imap.Membership.Complete.{Identified, collect_folder_complete}

abbrev login : Argument
login = word b'L' (codes "OGIN")

abbrev password : Argument
password = string (codes "a \"b\\ c")

tokenize-write_line_example :
    tokenize (write_line (login ∷ password ∷ [])) ≡ codes "LOGIN" ∷ codes "a \"b\\ c" ∷ []
unfolding any all is_control
tokenize-write_line_example = tokenize-write_line login (password ∷ []) ((refl, refl), (refl, tt))

abbrev sent_box : ImapMailbox
sent_box = record { name = codes "QQ/已发送"; attributes = [] }

abbrev filing : ImapMailbox
filing = record { name = codes "Filing"; attributes = codes "\\ARCHIVE" ∷ [] }

abbrev willing : Server
willing = record {
  capability = ok (codes "UIDPLUS" ∷ []);
  list_mailboxes = ok (sent_box ∷ []);
  create_mailbox = λ name. ok tt;
}

abbrev broken : Server
broken = record willing { create_mailbox = λ name. err (unreachable (codes "imap-closed")) }

negotiate_gates_example :
    Agrees
      (codes "UIDPLUS" ∷ [])
      (verdicts (codes "UIDPLUS" ∷ []) (sent_box ∷ []) (some default_archive_folder_name))
unfolding negotiate resolve_archive_folder or_create after_create find any is_archive_mailbox
    has_special_use role_leaf trim trim_start last_segment contains text_eq
negotiate_gates_example = negotiate_gates willing true (codes "UIDPLUS" ∷ []) _ refl refl

abbrev state_of : Text → ImapSelected
state_of folder = record { mailbox = folder; exists = 2 }

abbrev header : ℤ → Option Text → ImapFetchedHeader
header uid message_id = record { uid = uid; message_id = message_id }

abbrev two_headers : List ImapFetchedHeader
two_headers = header (pos 3) (some (codes "<a@b>")) ∷ header (pos 4) none ∷ []

abbrev peer : Peer
peer = record {
  connect = ok tt;
  login = ok tt;
  send_id = ok tt;
  list_mailboxes = ok [];
  select = λ folder. ok (state_of folder);
  all_uids = λ folder. ok (pos 3 ∷ pos 4 ∷ []);
  headers = λ folder uids. ok two_headers;
  decimal = λ n. codes "4";
}

abbrev known_inbox : FolderMembership
known_inbox = record {
  uids = pos 3 ∷ pos 4 ∷ [];
  remote_ids = codes "uid:4" ∷ codes "<a@b>" ∷ [];
  uid_by_remote_id = (codes "<a@b>", pos 3) ∷ (codes "uid:4", pos 4) ∷ [];
}

collect_folder_complete_example :
    (2 ≤ 10) × Identified peer two_headers known_inbox.remote_ids (pos 4)
unfolding collect_folder gather gather_one has_uid int_eq if_complete all remote_id_of trim
    trim_start text_eq put_uid
collect_folder_complete_example =
    collect_folder_complete peer (codes "INBOX") 10 none (pos 3 ∷ pos 4 ∷ []) two_headers
      known_inbox (pos 4) refl refl refl refl

abbrev no_roles : FolderRoles
no_roles = record { archive = some (codes "Archive"); trash = none; sent = none }

abbrev connected : Provider
connected = record {
  client = some true;
  has_credentials = true;
  selected = none;
  capabilities = none;
  roles = some no_roles;
  archive_create_refused = false;
}

abbrev cut_off : Peer
cut_off = record peer { select = λ folder. err (unreachable (codes "imap-closed")) }
