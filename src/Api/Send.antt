-- ===== src/Api/Send.antt =====
-- crates/lagoon-api/src/http/routes_send.rs: `deliver` from the claim of the request id on, the statuses
-- of its failures, and `save_sent_message` of store/write.rs. The mail is built and the provider is
-- there; what the provider answers, if it is asked, is an argument, and the state counts how often it is.
pub mod Replay
pub mod Recipients
use lagoon_email.Prelude.{
  ℕ, ◌+◌, Text, codes, text_eq, Bool, true, false, Option, none, some, List, Result, ok, err,
  if◌then◌else◌,
}
use lagoon_email.Store.Table.{Store, Header, WriteError, Exec, ◌>>=◌, execute, update_where, ignore}
use lagoon_email.Store.Headers.{NewHeader, BodyKey, keyed, upsert_header}
use lagoon_email.Store.Actions.{
  SendClaim, claimed, in_flight, completed, failed_with, claim_send, complete_send, fail_send,
}

pub data ProviderError : Type 0 where
  auth_failed message_gone : ProviderError
  unreachable not_configured protocol not_found too_large : Text → ProviderError

pub data Response : Type 0 where
  refused : ℕ → Text → Response
  accepted : Option Text → Response

unfoldable pub send_error : ProviderError → ℕ × Text
send_error auth_failed = (401, codes "smtp-auth-failed")
send_error message_gone = (410, codes "message-gone")
send_error (not_configured m) = (503, codes "provider-not-configured")
send_error (not_found m) = (404, codes "attachment-not-found")
send_error (too_large m) = (413, codes "attachment-too-large")
send_error (unreachable m) = (502, codes "smtp-send-failed")
send_error (protocol m) = (502, codes "smtp-send-failed")

-- the answer to a request whose send has failed before
unfoldable pub failed_response : Text → Response
failed_response code =
    if text_eq code (codes "smtp-auth-failed")
    then refused 401 (codes "smtp-auth-failed")
    else if text_eq code (codes "message-gone")
    then refused 410 (codes "message-gone")
    else if text_eq code (codes "provider-not-configured")
    then refused 503 (codes "provider-not-configured")
    else refused 502 (codes "smtp-send-failed")

abbrev pub mark_sent : ℕ → Text → Exec (Unit {0})
mark_sent a r = execute (λ db. record db {
  headers =
      update_where (keyed a r)
        (λ row. record row {
          is_sent = true;
          is_read = true;
          is_archived = false;
          is_deleted = false;
        })
        db.headers;
})

-- The row of the body is in a table that the model leaves out: its statement changes no other.
unfoldable pub save_sent_message : NewHeader → BodyKey → Exec (Unit {0})
save_sent_message header key = do
  _ ← upsert_header header (some key)
  _ ← mark_sent header.account_id header.remote_id
  execute (λ db. db)

-- What `deliver` has at hand when it claims the request id. `fresh_id` stands for the random id of a
-- copy that the provider gave none, and `copy` for the header of the stored copy by its id.
pub record Delivery : Type 0 where
  pub account_id : ℕ
  pub request_id : Option Text
  pub answers_to : Option Text
  pub fresh_id : Text
  pub copy : Text → NewHeader
  pub key : BodyKey
  pub now : ℕ

-- The store, and how often the provider was asked to send.
pub record Desk : Type 0 where
  pub store : Store
  pub deliveries : ℕ

abbrev pub copy_id : Delivery → Option Text → Text
copy_id d none = d.fresh_id
copy_id d (some id) = id

unfoldable pub store_sent_copy : Delivery → Option Text → Exec (Unit {0})
store_sent_copy d provider_id = save_sent_message (d.copy (copy_id d provider_id)) d.key

abbrev pub record_failure : Option ℕ → Text → Store → Store
record_failure none code s = s
record_failure (some action_id) code s = (fail_send action_id code s).1

-- Only a send that has both ids is completed.
abbrev pub record_success : Option ℕ → Option Text → Option Text → Store → Store
record_success (some action_id) (some provider_id) answers_to s =
    (complete_send action_id (some provider_id) answers_to s).1
record_success none provider_id answers_to s = s
record_success (some action_id) none answers_to s = s

unfoldable pub hand_over :
    Delivery → Result ProviderError (Option Text) → Option ℕ → Desk → Response × Desk
hand_over d (err e) action_id desk = (
  refused (send_error e).0 (send_error e).1,
  record {
    store = record_failure action_id (send_error e).1 desk.store;
    deliveries = desk.deliveries + 1;
  },
)
hand_over d (ok provider_id) action_id desk = (
  accepted provider_id,
  record {
    store =
        record_success action_id provider_id d.answers_to
          (store_sent_copy d provider_id desk.store).1;
    deliveries = desk.deliveries + 1;
  },
)

abbrev pub on_claim :
    Delivery
    → Result ProviderError (Option Text)
    → ℕ
    → Result WriteError SendClaim × Store
    → Response × Desk
on_claim d answer n (err e, s) =
    (refused 500 (codes "internal-error"), record { store = s; deliveries = n })
on_claim d answer n (ok (completed id), s) = (accepted id, record { store = s; deliveries = n })
on_claim d answer n (ok in_flight, s) =
    (refused 409 (codes "send-in-flight"), record { store = s; deliveries = n })
on_claim d answer n (ok (failed_with code), s) =
    (failed_response code, record { store = s; deliveries = n })
on_claim d answer n (ok (claimed id), s) =
    hand_over d answer (some id) (record { store = s; deliveries = n })

abbrev pub claim_first :
    Delivery → Result ProviderError (Option Text) → Option Text → Desk → Response × Desk
claim_first d answer none desk = hand_over d answer none desk
claim_first d answer (some id) desk =
    on_claim d answer desk.deliveries (claim_send d.now d.account_id id desk.store)

unfoldable pub deliver : Delivery → Result ProviderError (Option Text) → Desk → Response × Desk
deliver d answer desk = claim_first d answer d.request_id desk
