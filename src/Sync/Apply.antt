-- ===== src/Sync/Apply.antt =====
-- `SyncEngine::apply` and `SyncCursor::merge_into` of crates/lagoon-api/src/sync/mod.rs. The JSON
-- of `accounts.sync_state` is a cursor beside the keys that the engine does not touch.
pub mod Carry
pub mod Isolation
pub mod Filed
pub mod Deletion
pub mod Owed
pub mod CursorLast
use lagoon_email.Prelude.{
  ℕ, Text, codes, Bool, true, false, not, Result, ok, err, Option, none, some, List, [], ◌∷◌, ◌++◌,
  ℤ, if◌then◌else◌, filter, contains,
}
use lagoon_email.Store.Table.{
  SyncCursor, SyncState, Exec, pure, ◌>>=◌, ◌>>◌, for_each, ignore, WriteError,
}
use lagoon_email.Store.Headers.{
  NewHeader, BodyKey, upsert_header, live_remote_ids, delete_live_rows, fill_remote_uids,
  reconcile_inbox,
}
use lagoon_email.Store.Accounts.{update_sync_state, update_health}
use lagoon_email.Store.Actions.{empty_payload, record_action, replied_remote_ids, send_kind}
use lagoon_email.Sync.ChangeSet.{RemoteHeader, MailChangeSet}

unfoldable pub merge_into : SyncCursor → SyncState → SyncState
merge_into cursor base = record base { cursor = cursor }

unfoldable pub new_header : ℕ → RemoteHeader → NewHeader
new_header a h = record {
  account_id = a;
  remote_id = h.remote_id;
  thread_id = h.thread_id;
  from_address = h.from_address;
  from_name = h.from_name;
  subject = h.subject;
  snippet = h.snippet;
  received_at = h.received_at;
  list_unsubscribe = h.list_unsubscribe;
  message_id_header = h.message_id_header;
  in_reply_to = h.in_reply_to;
  references = h.references;
  unsubscribe_links = h.unsubscribe_links;
  remote_uid = h.remote_uid;
}

abbrev pub or_empty : Option (List Text) → List Text
or_empty none = []
or_empty (some ids) = ids

unfoldable pub fill_stage : ℕ → Option (List (Text × ℤ)) → Exec (Unit {0})
fill_stage a none = pure tt
fill_stage a (some uids) = fill_remote_uids a uids

-- The rows that may be deleted: with all three memberships known, the live rows in none of them;
-- otherwise only what the provider itself reports as removed.
unfoldable pub removed_rows :
    ℕ → List Text → Option (List Text) → Option (List Text) → List Text → Exec (List Text)
removed_rows a inbox (some archived) (some trashed) reported = do
  live ← live_remote_ids a
  pure (filter (λ r. not (contains (inbox ++ (archived ++ trashed)) r)) live)
removed_rows a inbox none trashed reported = pure reported
removed_rows a inbox (some archived) none reported = pure reported

unfoldable pub reconcile_stage : ℕ → MailChangeSet → Option (List Text) → Exec (Unit {0})
reconcile_stage a changes none = pure tt
reconcile_stage a changes (some inbox) = do
  removed ←
      removed_rows a inbox changes.archived_remote_ids changes.trashed_remote_ids
        changes.removed_remote_ids
  reconcile_inbox a inbox (or_empty changes.archived_remote_ids)
      (or_empty changes.trashed_remote_ids) removed

unfoldable pub record_reply : ℕ → List Text → Text → Exec (Unit {0})
record_reply a known message_id =
    if contains known message_id
    then pure tt
    else ignore (
        record_action a send_kind
          (record empty_payload { remote_id = some message_id; sent_folder = some (codes "true") }))

-- `unwrap_or_default()` of a query that failed
unfoldable pub known_replies : ℕ → Exec (List Text)
known_replies a s = let (r, s') = replied_remote_ids a s in (ok (or_default r), s')
  where
    or_default : Result WriteError (List Text) → List Text
    or_default (ok ids) = ids
    or_default (err e) = []

unfoldable pub replies_stage : ℕ → List Text → Exec (Unit {0})
replies_stage a [] = pure tt
replies_stage a (r ∷ rs) = do known ← known_replies a; for_each (r ∷ rs) (record_reply a known)

unfoldable pub reset_stage : ℕ → Bool → Exec (Unit {0})
reset_stage a true = delete_live_rows a
reset_stage a false = pure tt

-- Everything that lands before the cursor moves.
unfoldable pub land : ℕ → Option BodyKey → MailChangeSet → Exec (Unit {0})
land a key changes = do
  reset_stage a changes.reset_required
  for_each changes.upserts (λ h. upsert_header (new_header a h) key)
  fill_stage a changes.inbox_uids
  reconcile_stage a changes changes.inbox_remote_ids
  replies_stage a changes.replied_message_ids

-- `now` is the stored form of the clock.
unfoldable pub advance : ℕ → Text → MailChangeSet → SyncState → Exec (Unit {0})
advance a now changes previous = do
  update_sync_state a (merge_into changes.cursor previous) (codes "ok") (some now) none
  update_health a (codes "ok") none none

unfoldable pub apply : ℕ → Option BodyKey → Text → MailChangeSet → SyncState → Exec (Unit {0})
apply a key now changes previous = do land a key changes; advance a now changes previous
