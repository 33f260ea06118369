-- ===== src/Sync/ChangeSet.antt =====
-- `RemoteHeader` and `MailChangeSet` of crates/lagoon-api/src/provider/mod.rs.
use lagoon_email.Prelude.{Text, Bool, Option, List, ℤ}
use lagoon_email.Store.Table.{SyncCursor}

pub record RemoteHeader : Type 0 where
  pub remote_id : Text
  pub remote_uid : Option ℤ
  pub thread_id : Text
  pub from_address : Text
  pub from_name : Option Text
  pub subject : Option Text
  pub snippet : Option Text
  pub received_at : Text
  pub is_read : Bool
  pub message_id_header : Option Text
  pub in_reply_to : Option Text
  pub references : Option Text
  pub list_unsubscribe : Bool
  pub unsubscribe_links : Text

-- A set that is `none` is unknown, which is not the same as empty.
pub record MailChangeSet : Type 0 where
  pub cursor : SyncCursor
  pub reset_required : Bool
  pub upserts : List RemoteHeader
  pub replied_message_ids : List Text
  pub inbox_remote_ids : Option (List Text)
  pub inbox_uids : Option (List (Text × ℤ))
  pub archived_remote_ids : Option (List Text)
  pub trashed_remote_ids : Option (List Text)
  pub removed_remote_ids : List Text
  pub waited : Bool
