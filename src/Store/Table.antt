-- ===== src/Store/Table.antt =====
-- The tables of crates/lagoon-api/src/migrations.rs that write.rs changes, and the statements that
-- change them. A statement is atomic and may fail: `faults` says which of the coming ones do.
use lagoon_email.Prelude.{ℕ, Text, Bool, true, false, Option, List, [], ◌∷◌, Result, ok, err, ℤ}

-- The columns of `message_headers` that only an upsert writes.
pub record Content : Type 0 where
  pub thread_id : Text
  pub from_address : Text
  pub from_name : Option Text
  pub subject : Option Text
  pub snippet_cipher : Option Text
  pub received_at : Text
  pub list_unsubscribe : Bool
  pub message_id_header : Option Text
  pub in_reply_to : Option Text
  pub references : Option Text
  pub unsubscribe_links : Text

pub record Header : Type 0 where
  pub account_id : ℕ
  pub remote_id : Text
  pub content : Content
  pub remote_uid : Option ℤ
  pub is_read : Bool
  pub is_archived : Bool
  pub is_deleted : Bool
  pub is_sent : Bool

-- The part of `accounts.sync_state` that the engine writes, beside the keys that it leaves alone.
pub record SyncCursor : Type 0 where
  pub uid_validity : Option ℤ
  pub last_uid : Option ℤ

pub record SyncState : Type 0 where
  pub cursor : SyncCursor
  pub other_keys : List (Text × Text)

pub record Account : Type 0 where
  pub id : ℕ
  pub email : Text
  pub credentials : Option Text
  pub is_active : Bool
  pub updated_at : ℕ
  pub sync_state : SyncState
  pub sync_status : Text
  pub last_sync_at : Option Text
  pub last_sync_error : Option Text

-- The keys of an `ai_actions` payload that the store reads back. Of the provider's id the store also
-- asks whether the key is there with a null.
pub record Payload : Type 0 where
  pub request_id : Option Text
  pub status : Option Text
  pub claimed_at : Option ℕ
  pub provider_message_id : Option (Option Text)
  pub remote_id : Option Text
  pub error : Option Text
  pub sent_folder : Option Text
  pub undo_of : Option ℕ

pub record Action : Type 0 where
  pub id : ℕ
  pub account_id : ℕ
  pub kind : Text
  pub payload : Payload

-- `clock` is what `strftime('now')` reads while an operation runs, in milliseconds.
pub record Db : Type 0 where
  pub clock : ℕ
  pub headers : List Header
  pub accounts : List Account
  pub actions : List Action
  pub next_id : ℕ

pub data WriteError : Type 0 where
  sqlite : WriteError
  cipher : WriteError
  missing_body_key : WriteError
  unknown_account : WriteError

-- The database, and for each coming statement whether it fails.
pub record Store : Type 0 where
  pub db : Db
  pub faults : List Bool

abbrev pub Exec : Type 0 → Type 0
Exec A = Store → Result WriteError A × Store

abbrev pub pure : {A : Type 0} → A → Exec A
pure a s = (ok a, s)

abbrev pub raise : {A : Type 0} → WriteError → Exec A
raise e s = (err e, s)

abbrev pub lift : {A : Type 0} → Result WriteError A → Exec A
lift r s = (r, s)

unfoldable pub continue : {A B : Type 0} → Result WriteError A → (A → Exec B) → Exec B
continue (ok a) f s = f a s
continue (err e) f s = (err e, s)

infixl 5 ◌>>=◌ ◌>>◌
unfoldable pub ◌>>=◌ : {A B : Type 0} → Exec A → (A → Exec B) → Exec B
unfolding continue
◌>>=◌ m f s = let (r, s') = m s in continue r f s'

abbrev pub ◌>>◌ : {A B : Type 0} → Exec A → Exec B → Exec B
m >> n = m >>= λ _. n

unfoldable pub attempt : {A : Type 0} → List Bool → Db → (Db → A × Db) → Result WriteError A × Store
attempt [] db f = let (a, db') = f db in (ok a, record { db = db'; faults = [] })
attempt (true ∷ rest) db f = (err sqlite, record { db = db; faults = rest })
attempt (false ∷ rest) db f = let (a, db') = f db in (ok a, record { db = db'; faults = rest })

-- `connection.execute` and `connection.query_row`
unfoldable pub statement : {A : Type 0} → (Db → A × Db) → Exec A
unfolding attempt
statement f s = attempt s.faults s.db f

unfoldable pub execute : (Db → Db) → Exec (Unit {0})
unfolding statement
execute f = statement (λ db. (tt, f db))

unfoldable pub query : {A : Type 0} → (Db → A) → Exec A
unfolding statement
query f = statement (λ db. (f db, db))

-- A `for` loop whose body ends with `?`.
unfoldable pub for_each : {A : Type 0} → List A → (A → Exec (Unit {0})) → Exec (Unit {0})
unfolding ◌>>=◌
for_each [] body = pure tt
for_each (x ∷ xs) body = let rest = for_each xs body in body x >>= λ _. rest

-- `let _ = …`: the error is dropped, and what was written stays written.
unfoldable pub ignore : {A : Type 0} → Exec A → Exec (Unit {0})
ignore m s = (ok tt, (m s).1)

-- `UPDATE … SET f WHERE p`
unfoldable pub update_where : {A : Type 0} → (A → Bool) → (A → A) → List A → List A
update_where p f [] = []
update_where p f (x ∷ xs) =
    let rest = update_where p f xs in elim (p x) [ true ↦ f x ∷ rest | false ↦ x ∷ rest ]
