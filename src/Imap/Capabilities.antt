-- ===== src/Imap/Capabilities.antt =====
-- crates/lagoon-mail/src/imap/capabilities.rs: the roles of folders and the negotiated capabilities.
-- What the connection answers to a command is a parameter; an operation also gives the folders that it
-- asked the server to create.
pub mod Gates
pub mod Roles
use lagoon_email.Prelude.{
  ℕ, Text, codes, text_eq, Bool, true, false, not, ◌||◌, Option, none, some, List, [], ◌∷◌, ◌++◌,
  map, Result, ok, err, ◌==◌, if◌then◌else◌, any, find, contains, lower, trim,
}
use lagoon_email.Mail.Error.{MailError, is_message_verdict}

pub record ImapMailbox : Type 0 where
  pub name : Text
  pub attributes : List Text

-- A gate that is `none` has not been determined.
pub record MailCapabilities : Type 0 where
  pub archive_folder : Option Bool
  pub idle : Bool
  pub supports_move : Bool
  pub server_snippet : Bool
  pub uidplus : Option Bool
  pub sent_folder : Option Bool
  pub trash_folder : Option Bool
  pub archive_folder_name : Option Text

unfoldable pub unknown : MailCapabilities
unknown = record {
  archive_folder = none;
  idle = false;
  supports_move = false;
  server_snippet = false;
  uidplus = none;
  sent_folder = none;
  trash_folder = none;
  archive_folder_name = none;
}

-- `gate != Some(false)`
abbrev pub is_open : Option Bool → Bool
is_open none = true
is_open (some b) = b

unfoldable pub allows_delete : MailCapabilities → Bool
allows_delete c = is_open c.trash_folder

unfoldable pub allows_purge : MailCapabilities → Bool
allows_purge c = is_open c.uidplus

unfoldable pub allows_sent : MailCapabilities → Bool
allows_sent c = is_open c.sent_folder

unfoldable pub allows_archive : MailCapabilities → Bool
allows_archive c = is_open c.archive_folder

pub record FolderRoles : Type 0 where
  pub archive : Option Text
  pub trash : Option Text
  pub sent : Option Text

pub record Negotiated : Type 0 where
  pub capabilities : MailCapabilities
  pub roles : FolderRoles

abbrev pub default_archive_folder_name : Text
default_archive_folder_name = codes "Archive"

abbrev pub sent_names : List Text
sent_names =
    codes "sent"
    ∷ codes "sent messages"
    ∷ codes "sent items"
    ∷ codes "sent mail"
    ∷ codes "已发送"
    ∷ codes "已发送邮件"
    ∷ []

abbrev pub trash_names : List Text
trash_names =
    codes "trash"
    ∷ codes "deleted"
    ∷ codes "deleted messages"
    ∷ codes "deleted items"
    ∷ codes "deleted mail"
    ∷ codes "废纸篓"
    ∷ codes "已删除"
    ∷ codes "已删除邮件"
    ∷ []

abbrev pub archive_names : List Text
archive_names = codes "archive" ∷ codes "archived" ∷ codes "归档" ∷ []

-- `name.split('/').next_back()`
unfoldable pub last_segment : Text → Text → Text
last_segment [] current = current
last_segment (c ∷ cs) current = elim (c == b'/') [
  | true ↦ last_segment cs []
  | false ↦ last_segment cs (current ++ c ∷ [])
]

abbrev pub leaf_of : Text → Option Text
leaf_of [] = none
leaf_of (c ∷ cs) = some (map lower (c ∷ cs))

unfoldable pub role_leaf : Text → Option Text
role_leaf name = leaf_of (trim (last_segment name []))

unfoldable pub has_special_use : ImapMailbox → Text → Bool
has_special_use mailbox attribute =
    any (λ candidate. text_eq (map lower candidate) (map lower attribute)) mailbox.attributes

abbrev pub is_among : List Text → Option Text → Bool
is_among names none = false
is_among names (some leaf) = contains names leaf

unfoldable pub is_sent_mailbox : ImapMailbox → Bool
is_sent_mailbox m = has_special_use m (codes "\\Sent") || is_among sent_names (role_leaf m.name)

unfoldable pub is_trash_mailbox : ImapMailbox → Bool
is_trash_mailbox m = has_special_use m (codes "\\Trash") || is_among trash_names (role_leaf m.name)

unfoldable pub is_archive_mailbox : ImapMailbox → Bool
is_archive_mailbox m =
    has_special_use m (codes "\\Archive") || is_among archive_names (role_leaf m.name)

abbrev pub name_of : Option ImapMailbox → Option Text
name_of none = none
name_of (some m) = some m.name

unfoldable pub discover_roles : List ImapMailbox → FolderRoles
discover_roles mailboxes = record {
  archive = name_of (find is_archive_mailbox mailboxes);
  trash = name_of (find is_trash_mailbox mailboxes);
  sent = name_of (find is_sent_mailbox mailboxes);
}

-- What the server answers to `CAPABILITY`, `LIST` and `CREATE`.
pub record Server : Type 0 where
  pub capability : Result MailError (List Text)
  pub list_mailboxes : Result MailError (List ImapMailbox)
  pub create_mailbox : Text → Result MailError (Unit {0})

unfoldable pub after_create : Result MailError (Unit {0}) → Result MailError (Option Text)
after_create (ok u) = ok (some default_archive_folder_name)
after_create (err e) = if is_message_verdict e then ok none else err e

unfoldable pub or_create :
    Server → Bool → Option ImapMailbox → Result MailError (Option Text) × List Text
or_create server allow_create (some m) = (ok (some m.name), [])
or_create server false none = (ok none, [])
or_create server true none = (
  after_create (server.create_mailbox default_archive_folder_name),
  default_archive_folder_name ∷ [],
)

unfoldable pub resolve_archive_folder :
    Server → List ImapMailbox → Bool → Result MailError (Option Text) × List Text
resolve_archive_folder server mailboxes allow_create =
    or_create server allow_create (find is_archive_mailbox mailboxes)

abbrev pub is_some : Option Text → Bool
is_some none = false
is_some (some t) = true

abbrev pub or_else : Option Text → Option Text → Option Text
or_else none old = old
or_else (some t) old = some t

unfoldable pub verdicts : List Text → List ImapMailbox → Option Text → Negotiated
verdicts capabilities mailboxes archive =
    let found = discover_roles mailboxes in
    record {
      capabilities = record {
        archive_folder = some (is_some archive);
        idle = contains capabilities (codes "IDLE");
        supports_move = contains capabilities (codes "MOVE");
        server_snippet = true;
        uidplus = some (contains capabilities (codes "UIDPLUS"));
        sent_folder = some (is_some found.sent);
        trash_folder = some (is_some found.trash);
        archive_folder_name = archive;
      };
      roles = record found { archive = or_else archive found.archive };
    }

abbrev pub with_archive :
    List Text
    → List ImapMailbox
    → Result MailError (Option Text) × List Text
    → Result MailError Negotiated × List Text
with_archive capabilities mailboxes (ok archive, created) =
    (ok (verdicts capabilities mailboxes archive), created)
with_archive capabilities mailboxes (err e, created) = (err e, created)

abbrev pub with_mailboxes :
    Server
    → Bool
    → List Text
    → Result MailError (List ImapMailbox)
    → Result MailError Negotiated × List Text
with_mailboxes server allow capabilities (err e) = (err e, [])
with_mailboxes server allow capabilities (ok mailboxes) =
    with_archive capabilities mailboxes (resolve_archive_folder server mailboxes allow)

abbrev pub with_capabilities :
    Server → Bool → Result MailError (List Text) → Result MailError Negotiated × List Text
with_capabilities server allow (err e) = (err e, [])
with_capabilities server allow (ok capabilities) =
    with_mailboxes server allow capabilities server.list_mailboxes

unfoldable pub negotiate : Server → Bool → Result MailError Negotiated × List Text
negotiate server allow_create_archive =
    with_capabilities server allow_create_archive server.capability

abbrev pub reserved_attributes : List Text
reserved_attributes =
    codes "\\Trash" ∷ codes "\\Sent" ∷ codes "\\Archive" ∷ codes "\\Drafts" ∷ codes "\\Junk" ∷ []

abbrev pub reserved_names : List Text
reserved_names =
    codes "inbox"
    ∷ codes "sent"
    ∷ codes "sent items"
    ∷ codes "sent mail"
    ∷ codes "已发送"
    ∷ codes "已发送邮件"
    ∷ codes "trash"
    ∷ codes "deleted items"
    ∷ codes "deleted mail"
    ∷ codes "废纸篓"
    ∷ codes "已删除"
    ∷ codes "archive"
    ∷ codes "archived"
    ∷ codes "归档"
    ∷ codes "drafts"
    ∷ codes "草稿"
    ∷ codes "junk"
    ∷ codes "spam"
    ∷ codes "垃圾邮件"
    ∷ []

-- A folder without a leaf is reserved.
abbrev pub is_reserved_leaf : Option Text → Bool
is_reserved_leaf none = true
is_reserved_leaf (some leaf) = contains reserved_names leaf

unfoldable pub is_reserved_folder : ImapMailbox → Bool
is_reserved_folder m =
    any (has_special_use m) reserved_attributes || is_reserved_leaf (role_leaf m.name)
