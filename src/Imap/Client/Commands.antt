-- ===== src/Imap/Client/Commands.antt =====
-- The operations of `ImapClient` in crates/lagoon-mail/src/imap/client.rs. `store` and the fetches take
-- their flags and fields already joined.
use lagoon_email.Prelude.{
  Text, codes, text_eq, Option, none, some, List, [], ◌∷◌, ◌++◌, Result, ok, err, ℤ, if◌then◌else◌,
  contains,
}
use lagoon_email.Mail.Error.{
  MailError, message_gone, missing_capability, auth_failed, is_auth_failed,
}
use lagoon_email.Imap.Quoting.{quoted}
use lagoon_email.Imap.Parser.{ImapResponse}
use lagoon_email.Imap.Capabilities.{ImapMailbox}
use lagoon_email.Imap.Membership.{ImapSelected}
use lagoon_email.Imap.Client.Responses.{
  capability_names, saw_capability, mailboxes_of, selected_of, search_answer, newest_uid,
  listed_uids, first_literal, any_literal, FetchedHeader, parse_headers,
}
use lagoon_email.Imap.Client.{
  Command, ask_capability, identify, list_all, search_all, log_out, authenticate, log_in, choose,
  headers_from, headers_of, search_id, fetch_body, fetch_path, add_flags, remove_flags, move_uid,
  copy_uid, expunge_uids, create_folder, append_message, Link, World, Imap, give, raise, lift,
  ◌>>=◌, noted, execute, perform,
}

module _ {S : Type 0} (link : Link S) where
  abbrev pub remember : List ImapResponse → Imap S (List Text)
  remember rs w = (
    ok (capability_names rs),
    if saw_capability rs then record w { cached_capabilities = some (capability_names rs) } else w,
  )

  abbrev pub cached_or_asked : Option (List Text) → Imap S (List Text)
  cached_or_asked (some names) = give names
  cached_or_asked none = execute link ask_capability >>= remember

  unfoldable pub capability : Imap S (List Text)
  capability w = cached_or_asked w.cached_capabilities w

  unfoldable pub forget : Imap S (Unit {0})
  forget w = (ok tt, record w { cached_capabilities = none })

  abbrev pub log_in_verdict : Result MailError (Unit {0}) → Result MailError (Unit {0})
  log_in_verdict (ok u) = ok u
  log_in_verdict (err e) = if text_eq e.code (codes "tagged-NO") then err auth_failed else err e

  abbrev pub judged : Result MailError (Unit {0}) × World S → Result MailError (Unit {0}) × World S
  judged (r, w) = (log_in_verdict r, w)

  abbrev pub fall_back :
      Result MailError (Unit {0}) × World S → Result MailError (Unit {0}) × World S
  fall_back (ok u, w) = (ok u, w)
  fall_back (err e, w) =
      if is_auth_failed e
      then (err e, w)
      else judged (perform link (log_in link.username link.secret) w)

  abbrev pub plain_login : Command
  plain_login = authenticate (link.base64 (0 ∷ (link.username ++ (0 ∷ link.secret))))

  abbrev pub try_plain : Imap S (Unit {0})
  try_plain w = fall_back (perform link plain_login w)

  unfoldable pub login : Imap S (Unit {0})
  login = do _ ← lift (quoted link.username); _ ← lift (quoted link.secret); _ ← try_plain; forget

  unfoldable pub send_id : Imap S (Unit {0})
  send_id = do
    names ← capability
    if contains names (codes "ID") then perform link identify else give tt

  unfoldable pub list_mailboxes : Imap S (List ImapMailbox)
  list_mailboxes = do rs ← execute link list_all; give (mailboxes_of rs)

  unfoldable pub select : Text → Imap S ImapSelected
  select mailbox = do rs ← execute link (choose mailbox); give (selected_of link.reading mailbox rs)

  unfoldable pub fetch_headers_from_uid : ℤ → Text → Imap S (List FetchedHeader)
  fetch_headers_from_uid uid fields = do
    rs ← execute link (headers_from uid fields)
    give (parse_headers link.reading rs)

  unfoldable pub fetch_header : ℤ → Text → Imap S (List FetchedHeader)
  fetch_header uid fields = do
    rs ← execute link (headers_of (uid ∷ []) fields)
    give (parse_headers link.reading rs)

  abbrev pub found_uid : Option (List Text) → Option ℤ
  found_uid none = none
  found_uid (some atoms) = newest_uid (listed_uids link.reading atoms)

  unfoldable pub search_uid_by_message_id : Text → Imap S (Option ℤ)
  search_uid_by_message_id id = do
    rs ← execute link (search_id id)
    give (found_uid (search_answer 3 rs))

  abbrev pub every_uid : Option (List Text) → List ℤ
  every_uid none = []
  every_uid (some atoms) = listed_uids link.reading atoms

  unfoldable pub all_uids : Imap S (List ℤ)
  all_uids = do rs ← execute link search_all; give (every_uid (search_answer 2 rs))

  abbrev pub or_gone : Option Text → Result MailError Text
  or_gone none = err message_gone
  or_gone (some bytes) = ok bytes

  unfoldable pub fetch_full_body : ℤ → Imap S Text
  fetch_full_body uid = do rs ← execute link (fetch_body uid); lift (or_gone (first_literal rs))

  unfoldable pub fetch_part : ℤ → Text → Imap S Text
  fetch_part uid part = do rs ← execute link (fetch_path uid part); lift (or_gone (any_literal rs))

  unfoldable pub move_to : ℤ → Text → Imap S (Unit {0})
  move_to uid mailbox = do
    names ← capability
    if contains names (codes "MOVE")
        then perform link (move_uid uid mailbox)
        else raise (missing_capability (codes "move-missing"))

  -- A text of flags is empty where the list of flags is.
  unfoldable pub store : ℤ → Text → Text → Imap S (Unit {0})
  store uid add remove = do
    _ ← if text_eq add [] then give tt else perform link (add_flags uid add)
    if text_eq remove [] then give tt else perform link (remove_flags uid remove)

  unfoldable pub copy : ℤ → Text → Imap S (Unit {0})
  copy uid mailbox = perform link (copy_uid uid mailbox)

  unfoldable pub uid_expunge : ℤ → Imap S (Unit {0})
  uid_expunge uid = perform link (expunge_uids (uid ∷ []))

  unfoldable pub uid_expunge_many : List ℤ → Imap S (Unit {0})
  uid_expunge_many [] = give tt
  uid_expunge_many (u ∷ us) = perform link (expunge_uids (u ∷ us))

  unfoldable pub create_mailbox : Text → Imap S (Unit {0})
  create_mailbox name = perform link (create_folder name)

  abbrev pub append_quoted : Text → Text → Text → Imap S (Unit {0})
  append_quoted mailbox message q w =
      noted (append_message mailbox) w (link.append q message w.connection)

  unfoldable pub append : Text → Text → Imap S (Unit {0})
  append mailbox message = lift (quoted mailbox) >>= append_quoted mailbox message

  -- `disconnect`
  unfoldable pub disconnect : World S → World S
  disconnect w = record w {
    connection = link.close w.connection;
    cached_capabilities = none;
    at = none;
  }

  -- The error of LOGOUT is dropped.
  unfoldable pub logout : World S → World S
  logout w = let (_, after) = execute link log_out w in disconnect after
