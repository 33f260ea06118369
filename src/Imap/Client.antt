-- ===== src/Imap/Client.antt =====
-- crates/lagoon-mail/src/imap/client.rs: the commands of the client and the text of each. The state has
-- every command that was sent, the last one first, with the folder that the server had selected then:
-- the one that the last SELECT succeeded for, and none behind a SELECT that failed (RFC 3501, 6.3.1),
-- and with whether the server accepted it.
pub mod Responses
pub mod Commands
use lagoon_email.Prelude.{
  ℕ, Text, codes, text_eq, Bool, true, false, not, ◌&&◌, Option, none, some, List, [], ◌∷◌, ◌++◌,
  Result, ok, err, ℤ, pos, if◌then◌else◌, contains, all, ◌==◌, ◌||◌,
}
use lagoon_email.Mail.Error.{
  MailError, protocol, message_gone, missing_capability, auth_failed, is_auth_failed,
}
use lagoon_email.Imap.Quoting.{quoted}
use lagoon_email.Imap.Parser.{ImapResponse}
use lagoon_email.Imap.Parser.Literals.{is_digit}
use lagoon_email.Imap.Capabilities.{ImapMailbox}
use lagoon_email.Imap.Membership.{ImapSelected, Provider}
use lagoon_email.Imap.Client.Responses.{
  capability_names, saw_capability, mailboxes_of, selected_of, search_answer, newest_uid,
  listed_uids, first_literal, any_literal, Reading, FetchedHeader, parse_headers,
}

-- The commands, with their arguments before quoting. A flag list and a field list are already one text.
pub data Command : Type 0 where
  ask_capability identify list_all search_all log_out : Command
  authenticate : Text → Command
  log_in : Text → Text → Command
  choose : Text → Command
  headers_from : ℤ → Text → Command
  headers_of : List ℤ → Text → Command
  search_id : Text → Command
  fetch_body : ℤ → Command
  fetch_path : ℤ → Text → Command
  add_flags remove_flags : ℤ → Text → Command
  move_uid copy_uid : ℤ → Text → Command
  expunge_uids : List ℤ → Command
  create_folder : Text → Command
  append_message : Text → Command

-- What the client is given: the connection, the account, and functions of the standard library.
pub record Link (S : Type 0) : Type 0 where
  pub execute : Text → S → Result MailError (List ImapResponse) × S
  pub append : Text → Text → S → Result MailError (Unit {0}) × S
  pub connect : S → Result MailError (Unit {0}) × S
  pub close : S → S
  pub is_connected : S → Bool
  pub decimal : ℤ → Text
  pub base64 : Text → Text
  pub username : Text
  pub secret : Text
  pub reading : Reading

-- the folder that a command was sent in, and whether it was accepted
abbrev pub Mark : Type 0
Mark = Option Text × Bool

pub record World (S : Type 0) : Type 0 where
  pub provider : Provider
  pub connection : S
  pub cached_capabilities : Option (List Text)
  pub at : Option Text
  pub log : List (Mark × Command)

abbrev pub Imap : Type 0 → Type 0 → Type 0
Imap S A = World S → Result MailError A × World S

abbrev pub give : {S A : Type 0} → A → Imap S A
give a w = (ok a, w)

abbrev pub raise : {S A : Type 0} → MailError → Imap S A
raise e w = (err e, w)

abbrev pub continue :
    {S A B : Type 0} → (A → Imap S B) → Result MailError A × World S → Result MailError B × World S
continue k (ok a, w) = k a w
continue k (err e, w) = (err e, w)

infixl 5 ◌>>=◌ ◌>>◌
unfoldable pub ◌>>=◌ : {S A B : Type 0} → Imap S A → (A → Imap S B) → Imap S B
(m >>= k) w = continue k (m w)

abbrev pub ◌>>◌ : {S A B : Type 0} → Imap S A → Imap S B → Imap S B
m >> k = m >>= λ _. k

abbrev pub lift : {S A : Type 0} → Result MailError A → Imap S A
lift r w = (r, w)

abbrev pub spaced : (ℤ → Text) → List ℤ → Text
spaced decimal [] = []
spaced decimal (u ∷ []) = decimal u
spaced decimal (u ∷ v ∷ us) = decimal u ++ (codes "," ++ spaced decimal (v ∷ us))

abbrev pub header_items : Text → Text
header_items fields =
    codes " (UID FLAGS INTERNALDATE BODY.PEEK[HEADER.FIELDS (" ++ (fields ++ codes ")])")

-- a command word, a number, and a quoted argument
abbrev pub with_quoted : Text → Text → Result MailError Text
with_quoted before argument = elim (quoted argument) [ ok q ↦ ok (before ++ q) | err e ↦ err e ]

-- `format!` of each command, of APPEND the argument that `ImapConnection::append` puts in its line, with the refusal of an argument that cannot be quoted
unfoldable pub line_of : (ℤ → Text) → Command → Result MailError Text
line_of decimal ask_capability = ok (codes "CAPABILITY")
line_of decimal identify = ok (codes "ID (\"name\" \"Lagoon\" \"version\" \"1.0\")")
line_of decimal list_all = ok (codes "LIST \"\" \"*\"")
line_of decimal search_all = ok (codes "UID SEARCH ALL")
line_of decimal log_out = ok (codes "LOGOUT")
line_of decimal (authenticate payload) = ok (codes "AUTHENTICATE PLAIN " ++ payload)
line_of decimal (log_in user secret) = elim (quoted user) [
  | err e ↦ err e
  | ok u ↦ with_quoted (codes "LOGIN " ++ (u ++ codes " ")) secret
]
line_of decimal (choose mailbox) = with_quoted (codes "SELECT ") mailbox
line_of decimal (headers_from uid fields) =
    ok (codes "UID FETCH " ++ (decimal uid ++ (codes ":*" ++ header_items fields)))
line_of decimal (headers_of uids fields) =
    ok (codes "UID FETCH " ++ (spaced decimal uids ++ header_items fields))
line_of decimal (search_id id) = with_quoted (codes "UID SEARCH HEADER Message-ID ") id
line_of decimal (fetch_body uid) =
    ok (codes "UID FETCH " ++ (decimal uid ++ codes " (BODY.PEEK[])"))
line_of decimal (fetch_path uid part) =
    if not (text_eq part []) && all (λ c. is_digit c || c == b'.') part
    then ok (codes "UID FETCH " ++ (decimal uid ++ (codes " (BODY.PEEK[" ++ (part ++ codes "])"))))
    else err (protocol (codes "bad-part-path"))
line_of decimal (add_flags uid flags) =
    ok (codes "UID STORE " ++ (decimal uid ++ (codes " +FLAGS (" ++ (flags ++ codes ")"))))
line_of decimal (remove_flags uid flags) =
    ok (codes "UID STORE " ++ (decimal uid ++ (codes " -FLAGS (" ++ (flags ++ codes ")"))))
line_of decimal (move_uid uid mailbox) =
    with_quoted (codes "UID MOVE " ++ (decimal uid ++ codes " ")) mailbox
line_of decimal (copy_uid uid mailbox) =
    with_quoted (codes "UID COPY " ++ (decimal uid ++ codes " ")) mailbox
line_of decimal (expunge_uids uids) = ok (codes "UID EXPUNGE " ++ spaced decimal uids)
line_of decimal (create_folder name) = with_quoted (codes "CREATE ") name
line_of decimal (append_message mailbox) = quoted mailbox

-- The folder that is selected behind a command
unfoldable pub chosen : {A : Type 0} → Command → Option Text → Result MailError A → Option Text
chosen (choose mailbox) at (ok a) = some mailbox
chosen (choose mailbox) at (err e) = none
chosen _ at r = at

abbrev pub is_ok : {A : Type 0} → Result MailError A → Bool
is_ok (ok a) = true
is_ok (err e) = false

abbrev pub noted :
    {S A : Type 0} → Command → World S → Result MailError A × S → Result MailError A × World S
noted c w (r, s) =
    (r, record w { connection = s; at = chosen c w.at r; log = ((w.at, is_ok r), c) ∷ w.log })

abbrev pub send_line :
    {S : Type 0} → Link S → Command → Result MailError Text → Imap S (List ImapResponse)
send_line link c (err e) w = (err e, w)
send_line link c (ok line) w = noted c w (link.execute line w.connection)

-- `connection.execute(...)`; a command that cannot be written is never sent.
unfoldable pub execute : {S : Type 0} → Link S → Command → Imap S (List ImapResponse)
execute link c w = send_line link c (line_of link.decimal c) w

abbrev pub ignore : {S A : Type 0} → A → Imap S (Unit {0})
ignore a w = (ok tt, w)

unfoldable pub perform : {S : Type 0} → Link S → Command → Imap S (Unit {0})
perform link c = execute link c >>= ignore
