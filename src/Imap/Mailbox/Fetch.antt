-- ===== src/Imap/Mailbox/Fetch.antt =====
-- The fetches of `ImapProvider`: one message by its id, with the UID that the store remembers as a hint.
pub mod Hint
use lagoon_email.Prelude.{
  Text, codes, text_eq, Bool, true, false, not, ◌&&◌, Option, none, some, List, [], ◌∷◌, ◌++◌,
  Result, ok, err, ℤ, if◌then◌else◌, contains,
}
use lagoon_email.Mail.Error.{MailError, MailErrorKind, message_gone, message_gone_kind}
use lagoon_email.Imap.Capabilities.{FolderRoles}
use lagoon_email.Mime.Headers.{Headers}
use lagoon_email.Imap.Client.{Link, World, Imap, give, raise, lift, ◌>>=◌, ◌>>◌}
use lagoon_email.Imap.Client.Responses.{FetchedHeader}
use lagoon_email.Imap.Client.Commands.{fetch_full_body, fetch_header}
use lagoon_email.Imap.Mailbox.Session.{inbox, with_session, with_inbox, enter, ensure_roles}
use lagoon_email.Imap.Mailbox.Resolve.{is_mailbox_local_id, message_id_of, resolve_uid}

abbrev pub is_gone : MailError → Bool
is_gone e = elim e.kind [ message_gone_kind ↦ true | _ ↦ false ]

abbrev pub is_id : Text → Option Text → Bool
is_id id none = false
is_id id (some other) = text_eq other id

abbrev pub default_header_fields : Text
default_header_fields = codes "FROM SUBJECT DATE MESSAGE-ID IN-REPLY-TO REFERENCES LIST-UNSUBSCRIBE"

module _ {S : Type 0} (link : Link S) where
  abbrev pub first_headers : List FetchedHeader → Result MailError Headers
  first_headers [] = err message_gone
  first_headers (h ∷ hs) = ok h.raw_headers

  unfoldable pub fetch_raw_header_values : Text → Imap S Headers
  fetch_raw_header_values id = with_inbox link do
    uid ← resolve_uid link id
    headers ← fetch_header link uid default_header_fields
    lift (first_headers headers)

  abbrev pub checked :
      Text → Result MailError Text × World S → Result MailError (Option Text) × World S
  checked id (ok raw, w) =
      (ok (if is_id id (message_id_of link.reading raw) then some raw else none), w)
  checked id (err e, w) = (if is_gone e then ok none else err e, w)

  -- `ok none`: the hint is of no use.
  unfoldable pub fetch_at_stored_uid : Text → ℤ → Imap S (Option Text)
  fetch_at_stored_uid id uid w =
      if is_mailbox_local_id link.reading id
      then (ok none, w)
      else checked id (with_inbox link (fetch_full_body link uid) w)

  abbrev pub fetch_resolved : Text → Imap S Text
  fetch_resolved id = resolve_uid link id >>= fetch_full_body link

  -- The folders behind the inbox, each once.
  abbrev pub push_folder : Option Text → List Text → List Text
  push_folder none folders = folders
  push_folder (some folder) folders =
      if not (text_eq folder inbox) && not (contains folders folder)
      then folders ++ (folder ∷ [])
      else folders

  abbrev pub other_folders : FolderRoles → List Text
  other_folders roles = push_folder roles.trash (push_folder roles.archive [])

  abbrev pub fetch_in : Text → Text → Imap S Text
  fetch_in id folder = with_session link (enter link folder >> fetch_resolved id)

  abbrev pub or_next :
      Imap S Text → Result MailError Text × World S → Result MailError Text × World S
  or_next next (ok raw, w) = (ok raw, w)
  or_next next (err e, w) = if is_gone e then next w else (err e, w)

  unfoldable pub fetch_in_folders : Text → MailError → List Text → Imap S Text
  fetch_in_folders id miss [] w = (err miss, w)
  fetch_in_folders id miss (f ∷ fs) w = or_next (fetch_in_folders id miss fs) (fetch_in id f w)

  abbrev pub elsewhere : Text → MailError → Imap S Text
  elsewhere id miss =
      if is_mailbox_local_id link.reading id
      then raise miss
      else (ensure_roles link >>= λ roles. fetch_in_folders id miss (other_folders roles))

  abbrev pub or_elsewhere : Text → Result MailError Text × World S → Result MailError Text × World S
  or_elsewhere id (ok raw, w) = (ok raw, w)
  or_elsewhere id (err e, w) = if is_gone e then elsewhere id e w else (err e, w)

  unfoldable pub fetch_raw_message : Text → Imap S Text
  fetch_raw_message id w = or_elsewhere id (with_inbox link (fetch_resolved id) w)

  abbrev pub or_resolved :
      Text → Result MailError (Option Text) × World S → Result MailError Text × World S
  or_resolved id (err e, w) = (err e, w)
  or_resolved id (ok (some raw), w) = (ok raw, w)
  or_resolved id (ok none, w) = fetch_raw_message id w

  abbrev pub hinted : Text → Option ℤ → Imap S Text
  hinted id none w = fetch_raw_message id w
  hinted id (some uid) w = or_resolved id (fetch_at_stored_uid id uid w)

  unfoldable pub fetch_raw_message_with_hint : Text → Option ℤ → Imap S Text
  fetch_raw_message_with_hint id hint w = hinted id hint w
