-- ===== src/Store/Actions.antt =====
-- The `ai_actions` log of crates/lagoon-api/src/store/write.rs: audit rows and the claim that a
-- send request takes before it may talk to SMTP. The proofs are in the modules below, of which `Undo`
-- has `is_undone` too.
pub mod Claim
pub mod Phases
pub mod Recorded
pub mod Undo
use lagoon_email.Prelude.{
  ℕ, suc, ◌-◌, ◌+◌, ◌*◌, Text, codes, text_eq, Bool, true, false, not, ◌&&◌, ◌||◌, Option, none,
  some, List, [], ◌∷◌, ◌++◌, ◌==◌, ltb, if◌then◌else◌, any, find, filter,
}
use lagoon_email.Store.Table.{
  Payload, Action, Db, Exec, pure, raise, sqlite, ◌>>=◌, statement, execute, query, update_where,
}
use lagoon_email.Store.Accounts.{has_id}

abbrev pub pending : Text
pending = codes "pending"

abbrev pub sent : Text
sent = codes "sent"

abbrev pub failed : Text
failed = codes "failed"

abbrev pub send_kind : Text
send_kind = codes "send"

abbrev pub empty_payload : Payload
empty_payload = record {
  request_id = none;
  status = none;
  claimed_at = none;
  provider_message_id = none;
  remote_id = none;
  error = none;
  sent_folder = none;
  undo_of = none;
}

abbrev pub append_action : ℕ → Text → Payload → Db → Db
append_action a kind payload db = record db {
  actions =
      db.actions ++ record { id = db.next_id; account_id = a; kind = kind; payload = payload } ∷ [];
  next_id = suc db.next_id;
}

pub data SendClaim : Type 0 where
  claimed : ℕ → SendClaim
  in_flight : SendClaim
  completed : Option Text → SendClaim
  failed_with : Text → SendClaim

abbrev pub send_claim_lease_ms : ℕ
send_claim_lease_ms = 5 * 60 * 1000

abbrev pub is_text : Text → Option Text → Bool
is_text t none = false
is_text t (some u) = text_eq u t

-- The `send` row of one request: the unique index `ai_actions_send_request_idx` makes it at most one.
unfoldable pub is_request : ℕ → Text → Action → Bool
is_request a request_id row =
    row.account_id == a && (text_eq row.kind send_kind && is_text request_id row.payload.request_id)

abbrev pub repeats_request : ℕ → Option Text → Db → Bool
repeats_request a none db = false
repeats_request a (some request_id) db = any (is_request a request_id) db.actions

-- the foreign key and the unique index on an INSERT
abbrev pub violates : ℕ → Text → Payload → Db → Bool
violates a kind payload db =
    not (any (has_id a) db.accounts)
    || (text_eq kind send_kind && repeats_request a payload.request_id db)

unfoldable pub try_insert : ℕ → Text → Payload → Db → Option ℕ × Db
try_insert a kind payload db =
    if violates a kind payload db
    then (none, db)
    else (some db.next_id, append_action a kind payload db)

abbrev pub row_id_of : Option ℕ → Exec ℕ
row_id_of none = raise sqlite
row_id_of (some id) = pure id

-- `record_action`, with the row id that it returns
unfoldable pub record_action : ℕ → Text → Payload → Exec ℕ
record_action a kind payload = do id ← statement (try_insert a kind payload); row_id_of id

-- `record_undo`
unfoldable pub record_undo : ℕ → ℕ → Exec ℕ
record_undo a undo_of =
    record_action a (codes "undo") (record empty_payload { undo_of = some undo_of })

abbrev pub claim_payload : Text → ℕ → Payload
claim_payload request_id now = record empty_payload {
  request_id = some request_id;
  status = some pending;
  claimed_at = some now;
}

-- The INSERT of `claim_send`; `none` is a constraint violation, of the unique index or of the
-- foreign key.
unfoldable pub try_claim : ℕ → Text → ℕ → Db → Option ℕ × Db
try_claim a request_id now db =
    if any (is_request a request_id) db.actions || not (any (has_id a) db.accounts)
    then (none, db)
    else (some db.next_id, append_action a send_kind (claim_payload request_id now) db)

abbrev pub is_stale : ℕ → Option ℕ → Bool
is_stale now none = false
is_stale now (some at) = ltb send_claim_lease_ms (now - at)

abbrev pub same_claim : Option ℕ → Option ℕ → Bool
same_claim (some a) (some b) = a == b
same_claim _ _ = false

-- the WHERE of the take-over: the row is still the claim that was read
abbrev pub still_claimed : ℕ → Option ℕ → Action → Bool
still_claimed id at row =
    row.id == id && (is_text pending row.payload.status && same_claim row.payload.claimed_at at)

abbrev pub set_claim : ℕ → Action → Action
set_claim now row = record row {
  payload = record row.payload { status = some pending; claimed_at = some now };
}

unfoldable pub take_over : ℕ → ℕ → Option ℕ → Db → Bool × Db
take_over now id at db = (
  any (still_claimed id at) db.actions,
  record db { actions = update_where (still_claimed id at) (set_claim now) db.actions },
)

abbrev pub error_of : Option Text → Text
error_of none = codes "smtp-send-failed"
error_of (some e) = e

-- a claim that is still pending: taken over only when it is older than the lease
unfoldable pub resolve_pending : ℕ → Action → Exec SendClaim
resolve_pending now row =
    if is_stale now row.payload.claimed_at
    then (do
      taken ← statement (take_over now row.id row.payload.claimed_at)
      pure (if taken then claimed row.id else in_flight))
    else pure in_flight

abbrev pub is_some {ℓ} : {A : Type ℓ} → Option A → Bool
is_some none = false
is_some (some a) = true

abbrev pub text_of : Option (Option Text) → Option Text
text_of none = none
text_of (some value) = value

unfoldable pub resolve_row : ℕ → Action → Exec SendClaim
resolve_row now row =
    if is_text sent row.payload.status
    then pure (completed (text_of row.payload.provider_message_id))
    else if is_text failed row.payload.status
    then pure (failed_with (error_of row.payload.error))
    else if not (is_some row.payload.status) && is_some row.payload.provider_message_id
    then pure (completed (text_of row.payload.provider_message_id))
    else resolve_pending now row

unfoldable pub resolve_claim : ℕ → Option Action → Exec SendClaim
resolve_claim now none = pure in_flight
resolve_claim now (some row) = resolve_row now row

unfoldable pub after_insert : ℕ → ℕ → Text → Option ℕ → Exec SendClaim
after_insert now a request_id (some id) = pure (claimed id)
after_insert now a request_id none = do
  existing ← query (λ db. find (is_request a request_id) db.actions)
  resolve_claim now existing

unfoldable pub claim_send : ℕ → ℕ → Text → Exec SendClaim
claim_send now a request_id = do
  inserted ← statement (try_claim a request_id now)
  after_insert now a request_id inserted

abbrev pub with_id : ℕ → Action → Bool
with_id id row = row.id == id

unfoldable pub complete_send : ℕ → Option Text → Option Text → Exec (Unit {0})
complete_send id provider_message_id replied_to = execute (λ db. record db {
  actions =
      update_where (with_id id)
        (λ row. record row {
          payload = record row.payload {
            status = some sent;
            provider_message_id = some provider_message_id;
            remote_id = replied_to;
          };
        })
        db.actions;
})

unfoldable pub fail_send : ℕ → Text → Exec (Unit {0})
fail_send id code = execute (λ db. record db {
  actions =
      update_where (with_id id)
        (λ row. record row {
          payload = record row.payload { status = some failed; error = some code };
        })
        db.actions;
})

-- The rule of `send_status::visible` and of `replied_remote_ids`.
unfoldable pub visible : Action → Bool
visible row =
    not (text_eq row.kind send_kind)
    || (not (is_some row.payload.status) || is_text sent row.payload.status)

unfoldable pub replied_ids_of : ℕ → List Action → List Text
replied_ids_of a [] = []
replied_ids_of a (row ∷ rows) =
    let rest = replied_ids_of a rows in
    elim row.payload.remote_id [
      | none ↦ rest
      | some r ↦
          if row.account_id == a && (text_eq row.kind send_kind && visible row)
          then r ∷ rest
          else rest
    ]

unfoldable pub replied_remote_ids : ℕ → Exec (List Text)
replied_remote_ids a = query (λ db. replied_ids_of a db.actions)

unfoldable pub delete_action_row : ℕ → Exec (Unit {0})
delete_action_row id =
    execute (λ db. record db { actions = filter (λ row. not (with_id id row)) db.actions })
