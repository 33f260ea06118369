-- ===== src/Imap/Mailbox/Session.antt =====
-- The session of `ImapProvider`: `ensure_client`, `with_client`, `with_inbox`, `ensure_roles` and the
-- folders that the operations ask for.
use lagoon_email.Prelude.{
  Text, codes, text_eq, Bool, true, false, ◌&&◌, Option, none, some, List, Result, ok, err,
  if◌then◌else◌,
}
use lagoon_email.Mail.Error.{
  MailError, MailErrorKind, not_configured, trash_unavailable, sent_unavailable,
  archive_unavailable, is_message_verdict, message_gone_kind,
}
use lagoon_email.Imap.Capabilities.{
  ImapMailbox, FolderRoles, discover_roles, default_archive_folder_name,
}
use lagoon_email.Imap.Membership.{ImapSelected, is_fatal, is_connected}
use lagoon_email.Imap.Client.{Link, World, Imap, give, lift, ◌>>=◌, ◌>>◌}
use lagoon_email.Imap.Client.Commands.{
  login, send_id, list_mailboxes, select, create_mailbox, disconnect, logout,
}

abbrev pub inbox : Text
inbox = codes "INBOX"

module _ {S : Type 0} (link : Link S) where
  -- `self.selected = ...`
  abbrev pub set_selected : Option ImapSelected → World S → World S
  set_selected selected w = record w { provider = record w.provider { selected = selected } }

  abbrev pub set_roles : Option FolderRoles → World S → World S
  set_roles roles w = record w { provider = record w.provider { roles = roles } }

  abbrev pub note_selected : Option ImapSelected → Imap S (Unit {0})
  note_selected selected w = (ok tt, set_selected selected w)

  abbrev pub disconnect_if : Option Bool → World S → World S
  disconnect_if none w = w
  disconnect_if (some connected) w = disconnect link w

  -- `drop_connection`
  unfoldable pub hang_up : World S → World S
  hang_up w =
      let after = disconnect_if w.provider.client w in
      record after {
        provider = record after.provider { client = none; selected = none; roles = none };
      }

  abbrev pub opened_session : World S → World S
  opened_session w = record w {
    provider = record w.provider {
      client = some true;
      selected = none;
      capabilities = none;
      roles = none;
      archive_create_refused = false;
    };
  }

  abbrev pub connect_noted :
      Result MailError (Unit {0}) × S → World S → Result MailError (Unit {0}) × World S
  connect_noted (r, s) w = (r, record w { connection = s; cached_capabilities = none; at = none })

  -- a client of its own, which has nothing selected and has not asked for capabilities
  abbrev pub connect : Imap S (Unit {0})
  connect w = connect_noted (link.connect w.connection) w

  abbrev pub or_closed :
      Result MailError (Unit {0}) × World S → Result MailError (Unit {0}) × World S
  or_closed (ok u, w) = (ok tt, opened_session w)
  or_closed (err e, w) = (err e, if is_message_verdict e then logout link w else disconnect link w)

  unfoldable pub open_session : Imap S (Unit {0})
  open_session w = or_closed ((connect >> (login link >> send_id link)) w)

  unfoldable pub ensure_session : Bool → Imap S (Unit {0})
  ensure_session connected w =
      if connected
      then (ok tt, w)
      else if w.provider.has_credentials
      then open_session w
      else (err (not_configured (codes "credentials-missing")), w)

  -- `client.is_connected()` of a client that there is
  abbrev pub live : World S → Bool
  live w = is_connected w.provider.client && link.is_connected w.connection

  -- `ensure_client`
  unfoldable pub ensure_live : Imap S (Unit {0})
  ensure_live w = ensure_session (live w) w

  abbrev pub unselect_if_gone : MailErrorKind → World S → World S
  unselect_if_gone message_gone_kind w = set_selected none w
  unselect_if_gone _ w = w

  abbrev pub tidy : {A : Type 0} → Result MailError A × World S → Result MailError A × World S
  tidy (ok a, w) = (ok a, w)
  tidy (err e, w) = (err e, if is_fatal e then hang_up w else unselect_if_gone e.kind w)

  abbrev pub with_body :
      {A : Type 0} → Imap S A → Result MailError (Unit {0}) × World S → Result MailError A × World S
  with_body body (ok u, w) = tidy (body w)
  with_body body (err e, w) = (err e, w)

  -- `with_client`
  unfoldable pub with_session : {A : Type 0} → Imap S A → Imap S A
  with_session body w = with_body body (ensure_live w)

  -- `*selected = Some(client.select(folder)?)`
  unfoldable pub enter : Text → Imap S (Unit {0})
  enter folder = do state ← select link folder; note_selected (some state)

  abbrev pub in_inbox : Option ImapSelected → Bool
  in_inbox none = false
  in_inbox (some state) = text_eq state.mailbox inbox

  unfoldable pub select_inbox : Imap S (Unit {0})
  select_inbox w = if in_inbox w.provider.selected then (ok tt, w) else enter inbox w

  unfoldable pub with_inbox : {A : Type 0} → Imap S A → Imap S A
  with_inbox body = with_session (select_inbox >> body)

  abbrev pub learn_roles : List ImapMailbox → Imap S FolderRoles
  learn_roles mailboxes w =
      (ok (discover_roles mailboxes), set_roles (some (discover_roles mailboxes)) w)

  abbrev pub known_or_listed : Option FolderRoles → Imap S FolderRoles
  known_or_listed (some roles) = give roles
  known_or_listed none = with_session (list_mailboxes link) >>= learn_roles

  unfoldable pub ensure_roles : Imap S FolderRoles
  ensure_roles w = known_or_listed w.provider.roles w

  abbrev pub or_unavailable : MailError → Option Text → Result MailError Text
  or_unavailable e none = err e
  or_unavailable e (some folder) = ok folder

  unfoldable pub resolve_trash : Imap S Text
  resolve_trash = do roles ← ensure_roles; lift (or_unavailable trash_unavailable roles.trash)

  unfoldable pub resolve_sent : Imap S Text
  resolve_sent = do roles ← ensure_roles; lift (or_unavailable sent_unavailable roles.sent)

  abbrev pub with_archive : Option FolderRoles → Option FolderRoles
  with_archive none = none
  with_archive (some roles) = some (record roles { archive = some default_archive_folder_name })

  abbrev pub after_create :
      Result MailError (Unit {0}) × World S → Result MailError (Option Text) × World S
  after_create (ok u, w) =
      (ok (some default_archive_folder_name), set_roles (with_archive w.provider.roles) w)
  after_create (err e, w) =
      if is_message_verdict e
      then (ok none, record w { provider = record w.provider { archive_create_refused = true } })
      else (err e, w)

  abbrev pub create_archive : Imap S (Option Text)
  create_archive w =
      if w.provider.archive_create_refused
      then (ok none, w)
      else after_create (with_session (create_mailbox link default_archive_folder_name) w)

  abbrev pub named_or_created : Option Text → Imap S (Option Text)
  named_or_created (some name) = give (some name)
  named_or_created none = create_archive

  unfoldable pub resolve_archive : Imap S (Option Text)
  resolve_archive = do roles ← ensure_roles; named_or_created roles.archive

  unfoldable pub archive_folder : Imap S Text
  archive_folder = do found ← resolve_archive; lift (or_unavailable archive_unavailable found)
