-- ===== src/Tests/Store.antt =====
-- A store with two accounts and the life of one send.
use lagoon_email.Prelude.{
  ℕ, Bool, true, Text, codes, text_eq, ◌≡◌, refl, false, some, none, [], ◌∷◌, ok, arith, any, find,
  filter,
}
use lagoon_email.Store.Table.{Header, Account, Action, Db, SyncState}
use lagoon_email.Prelude.{length, map, ◌⊎◌, filter, All, err, ◌≤◌}
use lagoon_email.Store.Table.{sqlite}
use lagoon_email.Store.Accounts.{has_id, set_active, repair_active, active}
use lagoon_email.Store.Accounts.Active.{set_active_selects, repair_active_selects, identity}
use lagoon_email.Store.Actions.{
  resolve_row, claimed, in_flight, completed, failed_with, claim_send, complete_send, fail_send,
  is_request,
}
use lagoon_email.Store.Actions.Claim.{steady, claim_send-claim_send, new_claim}
use lagoon_email.Store.Actions.Phases.{
  complete_send-claim_send, fail_send-claim_send, claim_send-take_over,
}

abbrev pub nowhere : SyncState
nowhere = record { cursor = record { uid_validity = none; last_uid = none }; other_keys = [] }

abbrev pub account : ℕ → Account
account a = record {
  id = a;
  email = codes "a@b.example";
  credentials = some (codes "sealed");
  is_active = false;
  updated_at = a;
  sync_state = nowhere;
  sync_status = codes "never";
  last_sync_at = none;
  last_sync_error = none;
}

abbrev pub two_accounts : Db
two_accounts = record {
  clock = 9;
  headers = [];
  accounts = account 1 ∷ account 2 ∷ [];
  actions = [];
  next_id = 7;
}

abbrev request_id : Text
request_id = codes "r1"

abbrev claimed_row : Action
claimed_row = new_claim 1 request_id 1000 two_accounts

abbrev one_claim : Db
one_claim = record two_accounts { actions = claimed_row ∷ []; next_id = 8 }

claim_send-claim_send_example :
    ((claim_send 1000 1 request_id (steady two_accounts)).0 ≡ ok (claimed 7))
    × (claim_send 2000 1 request_id (claim_send 1000 1 request_id (steady two_accounts)).1
        ≡ (ok in_flight, (claim_send 1000 1 request_id (steady two_accounts)).1))
unfolding find any
claim_send-claim_send_example =
    claim_send-claim_send 1000 2000 1 request_id two_accounts refl refl (omega arith)

complete_send-claim_send_example :
    claim_send 2000 1 request_id (complete_send 7 (some (codes "p")) none (steady one_claim)).1 ≡ (
      ok (completed (some (codes "p"))),
      (complete_send 7 (some (codes "p")) none (steady one_claim)).1,
    )
unfolding find is_request text_eq
complete_send-claim_send_example =
    complete_send-claim_send 2000 1 request_id one_claim claimed_row refl (some (codes "p")) none

fail_send-claim_send_example :
    claim_send 2000 1 request_id (fail_send 7 (codes "smtp-auth") (steady one_claim)).1
    ≡ (ok (failed_with (codes "smtp-auth")), (fail_send 7 (codes "smtp-auth") (steady one_claim)).1)
unfolding find is_request text_eq
fail_send-claim_send_example =
    fail_send-claim_send 2000 1 request_id one_claim claimed_row refl (codes "smtp-auth")

claim_send-take_over_example :
    ((claim_send 400000 1 request_id (steady one_claim)).0 ≡ ok (claimed 7))
    × (claim_send 400001 1 request_id (claim_send 400000 1 request_id (steady one_claim)).1
        ≡ (ok in_flight, (claim_send 400000 1 request_id (steady one_claim)).1))
    × (resolve_row 400002 claimed_row (claim_send 400000 1 request_id (steady one_claim)).1
        ≡ (ok in_flight, (claim_send 400000 1 request_id (steady one_claim)).1))
unfolding find is_request text_eq
claim_send-take_over_example =
    claim_send-take_over 400000 1 request_id one_claim claimed_row refl 1000 400001 400002 refl refl
      (omega arith) (omega arith)

abbrev trashed : ℕ → Bool → Header
trashed a deleted = record {
  account_id = a;
  remote_id = codes "m";
  content = record {
    thread_id = codes "t";
    from_address = codes "a@b.example";
    from_name = none;
    subject = none;
    snippet_cipher = none;
    received_at = codes "2026-01-01";
    list_unsubscribe = false;
    message_id_header = none;
    in_reply_to = none;
    references = none;
    unsubscribe_links = [];
  };
  remote_uid = none;
  is_read = true;
  is_archived = false;
  is_deleted = deleted;
  is_sent = false;
}

abbrev with_trash : Db
with_trash = record two_accounts {
  headers = trashed 1 true ∷ trashed 1 false ∷ trashed 2 true ∷ [];
}

set_active_selects_example :
    (((set_active 2 (steady two_accounts)).0 ≡ ok tt)
      × All (λ row. row.is_active ≡ has_id 2 row) (set_active 2 (steady two_accounts)).1.db.accounts
      × (map identity (set_active 2 (steady two_accounts)).1.db.accounts
          ≡ map identity two_accounts.accounts))
    ⊎ (((set_active 2 (steady two_accounts)).0 ≡ err sqlite)
        × ((set_active 2 (steady two_accounts)).1.db.accounts ≡ two_accounts.accounts))
set_active_selects_example = set_active_selects 2 (steady two_accounts)

distinct_ids : (id : ℕ) → length (filter (has_id id) two_accounts.accounts) ≤ 1
unfolding filter
distinct_ids id = ground arith

repair_active_selects_example :
    (length (filter active (repair_active two_accounts.accounts)) ≡ 1)
    × (repair_active (repair_active two_accounts.accounts) ≡ repair_active two_accounts.accounts)
unfolding filter
repair_active_selects_example =
    repair_active_selects (account 1) (account 2 ∷ []) distinct_ids (omega arith)
