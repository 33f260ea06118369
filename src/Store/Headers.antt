-- ===== src/Store/Headers.antt =====
-- The operations of crates/lagoon-api/src/store/write.rs on `message_headers`.
pub mod Trash
use lagoon_email.Prelude.{
  ℕ, Text, text_eq, Bool, true, false, not, ◌&&◌, Option, none, some, List, [], ◌∷◌, ◌++◌, map,
  Result, ℤ, int_eq, ◌==◌, if◌then◌else◌, any, filter, contains, length,
}
use lagoon_email.Store.Table.{
  Content, Header, WriteError, missing_body_key, Exec, pure, raise, lift, ◌>>=◌, execute, query,
  for_each, update_where,
}

-- `WHERE account_id = ? AND remote_id = ?`
abbrev pub keyed : ℕ → Text → Header → Bool
keyed a r h = h.account_id == a && text_eq h.remote_id r

-- the live inbox lens: neither archived, deleted nor sent
abbrev pub is_live : ℕ → Header → Bool
is_live a h = h.account_id == a && (not h.is_archived && (not h.is_deleted && not h.is_sent))

pub record NewHeader : Type 0 where
  pub account_id : ℕ
  pub remote_id : Text
  pub thread_id : Text
  pub from_address : Text
  pub from_name : Option Text
  pub subject : Option Text
  pub snippet : Option Text
  pub received_at : Text
  pub list_unsubscribe : Bool
  pub message_id_header : Option Text
  pub in_reply_to : Option Text
  pub references : Option Text
  pub unsubscribe_links : Text
  pub remote_uid : Option ℤ

-- `BodyKey::seal`, an AES-GCM envelope, is outside the model.
abbrev pub BodyKey : Type 0
BodyKey = Text → Result WriteError Text

unfoldable pub seal_snippet : Option Text → Option BodyKey → Exec (Option Text)
seal_snippet none key = pure none
seal_snippet (some text) (some seal) = do sealed ← lift (seal text); pure (some sealed)
seal_snippet (some text) none = raise missing_body_key

unfoldable pub content_of : NewHeader → Option Text → Content
content_of h snippet = record {
  thread_id = h.thread_id;
  from_address = h.from_address;
  from_name = h.from_name;
  subject = h.subject;
  snippet_cipher = snippet;
  received_at = h.received_at;
  list_unsubscribe = h.list_unsubscribe;
  message_id_header = h.message_id_header;
  in_reply_to = h.in_reply_to;
  references = h.references;
  unsubscribe_links = h.unsubscribe_links;
}

-- `INSERT … ON CONFLICT(account_id, remote_id) DO UPDATE`: an existing row keeps its flags.
unfoldable pub insert_or_update : NewHeader → Option Text → List Header → List Header
insert_or_update new snippet rows =
    if any (keyed new.account_id new.remote_id) rows
    then update_where (keyed new.account_id new.remote_id)
        (λ row. record row { content = content_of new snippet; remote_uid = new.remote_uid }) rows
    else rows
      ++ record {
        account_id = new.account_id;
        remote_id = new.remote_id;
        content = content_of new snippet;
        remote_uid = new.remote_uid;
        is_read = false;
        is_archived = false;
        is_deleted = false;
        is_sent = false;
      }
        ∷ []

unfoldable pub upsert_header : NewHeader → Option BodyKey → Exec (Unit {0})
upsert_header new key = do
  snippet ← seal_snippet new.snippet key
  execute (λ db. record db { headers = insert_or_update new snippet db.headers })

unfoldable pub live_remote_ids : ℕ → Exec (List Text)
live_remote_ids a = query (λ db. map (λ h. h.remote_id) (filter (is_live a) db.headers))

-- Only live inbox rows are wiped on a UID reset: archive, trash and sent stay.
unfoldable pub delete_live_rows : ℕ → Exec (Unit {0})
delete_live_rows a =
    execute (λ db. record db { headers = filter (λ h. not (is_live a h)) db.headers })

-- in the inbox lens of `fill_remote_uids`, which does not look at `is_sent`
abbrev pub in_inbox : ℕ → Header → Bool
in_inbox a h = h.account_id == a && (not h.is_archived && not h.is_deleted)

abbrev pub uid_differs : ℤ → Option ℤ → Bool
uid_differs uid none = true
uid_differs uid (some old) = not (int_eq old uid)

abbrev pub lacks_uid : Header → Bool
lacks_uid h = elim h.remote_uid [ none ↦ true | some uid ↦ false ]

unfoldable pub set_remote_uid : ℕ → Text × ℤ → Exec (Unit {0})
set_remote_uid a (remote_id, uid) = execute (λ db. record db {
  headers =
      update_where (λ h. keyed a remote_id h && (in_inbox a h && uid_differs uid h.remote_uid))
        (λ h. record h { remote_uid = some uid }) db.headers;
})

unfoldable pub fill_remote_uids : ℕ → List (Text × ℤ) → Exec (Unit {0})
fill_remote_uids a uids = do
  missing ← query (λ db. length (filter (λ h. in_inbox a h && lacks_uid h) db.headers))
  if missing == 0 then pure tt else for_each uids (set_remote_uid a)

abbrev pub set_archived : ℕ → Text → Bool → Exec (Unit {0})
set_archived a r flag = execute (λ db. record db {
  headers = update_where (keyed a r) (λ h. record h { is_archived = flag }) db.headers;
})

abbrev pub set_deleted : ℕ → Text → Bool → Exec (Unit {0})
set_deleted a r flag = execute (λ db. record db {
  headers = update_where (keyed a r) (λ h. record h { is_deleted = flag }) db.headers;
})

-- `DELETE FROM message_headers WHERE account_id = ? AND remote_id = ?`
abbrev pub delete_message_row : ℕ → Text → Exec (Unit {0})
delete_message_row a r =
    execute (λ db. record db { headers = filter (λ h. not (keyed a r h)) db.headers })

-- One live row of `reconcile_inbox`: it moves where the provider placed it, and is deleted only
-- where the provider confirmed it gone.
unfoldable pub reconcile_row :
    ℕ → List Text → List Text → List Text → List Text → Text → Exec (Unit {0})
reconcile_row a keeping archived trashed removed remote_id =
    if contains keeping remote_id
    then pure tt
    else if contains archived remote_id
    then set_archived a remote_id true
    else if contains trashed remote_id
    then set_deleted a remote_id true
    else if contains removed remote_id
    then delete_message_row a remote_id
    else pure tt

unfoldable pub reconcile_inbox : ℕ → List Text → List Text → List Text → List Text → Exec (Unit {0})
reconcile_inbox a keeping archived trashed removed = do
  local ← live_remote_ids a
  for_each local (reconcile_row a keeping archived trashed removed)
