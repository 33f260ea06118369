-- ===== src/Imap/Mailbox/Operations.antt =====
-- The operations of `ImapProvider` that change a mailbox.
use lagoon_email.Prelude.{
  Text, codes, text_eq, Bool, true, false, none, List, [], ◌∷◌, Result, ok, err, ℤ, if◌then◌else◌,
  contains, trim,
}
use lagoon_email.Mail.Error.{
  MailError, message_gone, unsafe_operation, missing_capability, is_message_verdict,
}
use lagoon_email.Imap.Client.{Link, World, Imap, give, raise, ◌>>=◌, ◌>>◌}
use lagoon_email.Imap.Client.Commands.{
  capability, move_to, copy, store, uid_expunge_many, all_uids, create_mailbox, append,
}
use lagoon_email.Imap.Mailbox.Session.{
  inbox, note_selected, with_session, with_inbox, enter, resolve_trash, resolve_sent,
  archive_folder,
}
use lagoon_email.Imap.Mailbox.Resolve.{
  deleted_flag, seen_flag, resolve_uid, move_safely, remove_one,
}

module _ {S : Type 0} (link : Link S) where
  abbrev pub mark : Bool → ℤ → Imap S (Unit {0})
  mark is_read uid = if is_read then store link uid seen_flag [] else store link uid [] seen_flag

  unfoldable pub set_read : Text → Bool → Imap S (Unit {0})
  set_read id is_read = with_inbox link (resolve_uid link id >>= mark is_read)

  -- out of the inbox into a folder
  abbrev pub file_into : Text → Text → Imap S (Unit {0})
  file_into id folder = with_inbox link (resolve_uid link id >>= λ uid. move_safely link uid folder)

  -- back from a folder
  abbrev pub bring_back : Text → Text → Imap S (Unit {0})
  bring_back id folder = with_session link do
    _ ← enter link folder
    uid ← resolve_uid link id
    _ ← move_safely link uid inbox
    note_selected link none

  unfoldable pub archive : Text → Imap S (Unit {0})
  archive id = archive_folder link >>= file_into id

  unfoldable pub unarchive : Text → Imap S (Unit {0})
  unarchive id = archive_folder link >>= bring_back id

  unfoldable pub trash : Text → Imap S (Unit {0})
  trash id = resolve_trash link >>= file_into id

  unfoldable pub restore_from_trash : Text → Imap S (Unit {0})
  restore_from_trash id = resolve_trash link >>= bring_back id

  abbrev pub without_uidplus : Imap S (Unit {0})
  without_uidplus = note_selected link none >> raise (missing_capability (codes "uidplus-missing"))

  abbrev pub purge_one : ℤ → Imap S (Unit {0})
  purge_one uid = do
    names ← capability link
    if contains names (codes "UIDPLUS")
        then (remove_one link uid >> note_selected link none)
        else without_uidplus

  abbrev pub purge_in : Text → Text → Imap S (Unit {0})
  purge_in id folder =
      with_session link do _ ← enter link folder; uid ← resolve_uid link id; purge_one uid

  unfoldable pub permanently_delete : Text → Imap S (Unit {0})
  permanently_delete id = resolve_trash link >>= purge_in id

  unfoldable pub flag_all : List ℤ → Imap S (Unit {0})
  flag_all [] = give tt
  flag_all (u ∷ us) = store link u deleted_flag [] >> flag_all us

  abbrev pub purge_all : List ℤ → Imap S (Unit {0})
  purge_all [] = note_selected link none
  purge_all (u ∷ us) =
      (flag_all (u ∷ us) >> uid_expunge_many link (u ∷ us)) >> note_selected link none

  abbrev pub empty_folder : Text → Imap S (Unit {0})
  empty_folder folder = with_session link do
    _ ← enter link folder
    names ← capability link
    if contains names (codes "UIDPLUS") then (all_uids link >>= purge_all) else without_uidplus

  unfoldable pub empty_trash : Imap S (Unit {0})
  empty_trash = resolve_trash link >>= empty_folder

  -- A verdict of the server ends in `false`: the message is where it was.
  abbrev pub or_false :
      Imap S Bool → Result MailError (Unit {0}) × World S → Result MailError Bool × World S
  or_false next (ok u, w) = next w
  or_false next (err e, w) = if is_message_verdict e then (ok false, w) else (err e, w)

  abbrev pub attempt : Imap S (Unit {0}) → Imap S Bool → Imap S Bool
  attempt m next w = or_false next (m w)

  abbrev pub removed : ℤ → Imap S Bool
  removed uid = remove_one link uid >> give true

  abbrev pub create_and_copy : ℤ → Text → Imap S Bool
  create_and_copy uid target =
      attempt (create_mailbox link target) (attempt (copy link uid target) (removed uid))

  abbrev pub or_created :
      ℤ → Text → Bool → Result MailError (Unit {0}) × World S → Result MailError Bool × World S
  or_created uid target create (ok u, w) = removed uid w
  or_created uid target create (err e, w) =
      if is_message_verdict e
      then (if create then create_and_copy uid target w else (ok false, w))
      else (err e, w)

  abbrev pub copy_or_create : ℤ → Text → Bool → Imap S Bool
  copy_or_create uid target create w = or_created uid target create (copy link uid target w)

  abbrev pub by_copy : ℤ → Text → Bool → Imap S Bool
  by_copy uid target create = do
    names ← capability link
    if contains names (codes "UIDPLUS")
        then copy_or_create uid target create
        else raise (unsafe_operation (codes "move-needs-uidplus"))

  abbrev pub or_by_copy :
      ℤ → Text → Bool → Result MailError (Unit {0}) × World S → Result MailError Bool × World S
  or_by_copy uid target create (ok u, w) = (ok true, w)
  or_by_copy uid target create (err e, w) =
      if is_message_verdict e then by_copy uid target create w else (err e, w)

  abbrev pub try_move : ℤ → Text → Bool → List Text → Imap S Bool
  try_move uid target create names w =
      if contains names (codes "MOVE")
      then or_by_copy uid target create (move_to link uid target w)
      else by_copy uid target create w

  abbrev pub or_message_gone : Result MailError ℤ × World S → Result MailError ℤ × World S
  or_message_gone (ok uid, w) = (ok uid, w)
  or_message_gone (err e, w) = (err message_gone, w)

  -- `resolve_uid(...).map_err(|_| message_gone())`
  abbrev pub resolve_or_gone : Text → Imap S ℤ
  resolve_or_gone id w = or_message_gone (resolve_uid link id w)

  unfoldable pub move_uid_into : Text → Bool → ℤ → Imap S Bool
  move_uid_into target create uid = capability link >>= try_move uid target create

  unfoldable pub move_message : Text → Text → Bool → Imap S Bool
  move_message id folder create =
      if text_eq (trim folder) []
      then give false
      else with_inbox link (resolve_or_gone id >>= move_uid_into (trim folder) create)

  abbrev pub append_in : Text → Text → Imap S (Unit {0})
  append_in raw folder = with_session link (append link folder raw)

  unfoldable pub append_to_sent : Text → Imap S (Unit {0})
  append_to_sent raw = resolve_sent link >>= append_in raw

-- One call of the provider.
pub data Operation : Type 0 where
  set_read_of : Text → Bool → Operation
  archive_of unarchive_of trash_of restore_of purge_of : Text → Operation
  empty : Operation
  move_of : Text → Text → Bool → Operation
  append_sent : Text → Operation

module _ {S : Type 0} (link : Link S) where
  -- the state behind a call
  unfoldable pub after : Operation → World S → World S
  after (set_read_of id is_read) w = (set_read link id is_read w).1
  after (archive_of id) w = (archive link id w).1
  after (unarchive_of id) w = (unarchive link id w).1
  after (trash_of id) w = (trash link id w).1
  after (restore_of id) w = (restore_from_trash link id w).1
  after (purge_of id) w = (permanently_delete link id w).1
  after empty w = (empty_trash link w).1
  after (move_of id folder create) w = (move_message link id folder create w).1
  after (append_sent raw) w = (append_to_sent link raw w).1

  unfoldable pub after_all : List Operation → World S → World S
  after_all [] w = w
  after_all (o ∷ os) w = after_all os (after o w)
