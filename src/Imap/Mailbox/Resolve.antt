-- ===== src/Imap/Mailbox/Resolve.antt =====
-- `resolve_uid`, `is_mailbox_local_id`, `message_id_of` and `move_safely` of
-- crates/lagoon-mail/src/imap/provider.rs.
use lagoon_email.Prelude.{
  Text, codes, text_eq, Bool, true, false, ◌||◌, Option, none, some, List, [], ◌∷◌, Result, ok, err,
  ℤ, pos, if◌then◌else◌, contains, trim,
}
use lagoon_email.Mail.Error.{MailError, message_gone, unsafe_operation, is_message_verdict}
use lagoon_email.Mime.Headers.{after_prefix, get_header, split_head_and_body, parse_header_block}
use lagoon_email.Imap.Client.{Link, World, Imap, give, raise, lift, ◌>>=◌, ◌>>◌}
use lagoon_email.Imap.Client.Responses.{Reading, FetchedHeader}
use lagoon_email.Imap.Client.Commands.{
  capability, move_to, copy, store, uid_expunge, search_uid_by_message_id, fetch_headers_from_uid,
}

abbrev pub deleted_flag : Text
deleted_flag = codes "\\Deleted"

abbrev pub seen_flag : Text
seen_flag = codes "\\Seen"

abbrev pub parsed_rest : Reading → Option Text → Option ℤ
parsed_rest reading none = none
parsed_rest reading (some rest) = reading.integer rest

abbrev pub or_else : Option ℤ → Option ℤ → Option ℤ
or_else none other = other
or_else (some uid) other = some uid

-- The UID that an id is by itself: a number, or a number behind `uid:`.
unfoldable pub local_uid : Reading → Text → Option ℤ
local_uid reading id =
    or_else (reading.integer id) (parsed_rest reading (after_prefix (codes "uid:") id))

abbrev pub is_found : Option ℤ → Bool
is_found none = false
is_found (some uid) = true

unfoldable pub is_mailbox_local_id : Reading → Text → Bool
is_mailbox_local_id reading id =
    is_found (reading.integer id) || is_found (parsed_rest reading (after_prefix (codes "uid:") id))

abbrev pub is_value : Text → Option Text → Bool
is_value id none = false
is_value id (some value) = text_eq (trim value) id

-- the scan over the whole mailbox
unfoldable pub uid_among : Text → List FetchedHeader → Option ℤ
uid_among id [] = none
uid_among id (h ∷ hs) =
    if is_value id (get_header (codes "message-id") h.raw_headers)
    then some h.uid
    else uid_among id hs

unfoldable pub message_id_of : Reading → Text → Option Text
message_id_of reading raw =
    let (block, _) = split_head_and_body raw in
    elim (get_header (codes "message-id") (parse_header_block reading.utf8 block)) [
      | none ↦ none
      | some value ↦ some (trim value)
    ]

module _ {S : Type 0} (link : Link S) where
  abbrev pub found_or_gone : Option ℤ → Result MailError ℤ
  found_or_gone none = err message_gone
  found_or_gone (some uid) = ok uid

  abbrev pub scan_for : Text → Option ℤ → Imap S ℤ
  scan_for id (some uid) = give uid
  scan_for id none = do
    headers ← fetch_headers_from_uid link (pos 1) (codes "MESSAGE-ID")
    lift (found_or_gone (uid_among id headers))

  abbrev pub search_for : Text → Option ℤ → Imap S ℤ
  search_for id (some uid) = give uid
  search_for id none = do found ← search_uid_by_message_id link id; scan_for id found

  unfoldable pub resolve_uid : Text → Imap S ℤ
  resolve_uid id = search_for id (local_uid link.reading id)

  -- what is left of a message that was copied
  unfoldable pub remove_one : ℤ → Imap S (Unit {0})
  remove_one uid = do _ ← store link uid deleted_flag []; uid_expunge link uid

  abbrev pub copy_and_remove : ℤ → Text → Imap S (Unit {0})
  copy_and_remove uid target = do
    names ← capability link
    if contains names (codes "UIDPLUS")
        then (copy link uid target >> remove_one uid)
        else raise (unsafe_operation (codes "move-needs-uidplus"))

  abbrev pub or_copied :
      ℤ → Text → Result MailError (Unit {0}) × World S → Result MailError (Unit {0}) × World S
  or_copied uid target (ok u, w) = (ok tt, w)
  or_copied uid target (err e, w) =
      if is_message_verdict e then copy_and_remove uid target w else (err e, w)

  unfoldable pub move_safely : ℤ → Text → Imap S (Unit {0})
  move_safely uid target w = or_copied uid target (move_to link uid target w)
