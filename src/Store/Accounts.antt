-- ===== src/Store/Accounts.antt =====
-- The operations of crates/lagoon-api/src/store/write.rs on `accounts`.
pub mod Active
use lagoon_email.Prelude.{
  ℕ, Text, Bool, true, false, Option, none, some, List, [], ◌∷◌, ◌==◌, ◌&&◌, ◌||◌, ltb,
  if◌then◌else◌, find, any,
}
use lagoon_email.Store.Table.{Account, SyncState, Exec, execute, query, update_where}

abbrev pub has_id : ℕ → Account → Bool
has_id a row = row.id == a

-- `store::accounts::find`
unfoldable pub find_account : ℕ → Exec (Option Account)
find_account a = query (λ db. find (has_id a) db.accounts)

abbrev sealed_of : Option Account → Option Text
sealed_of none = none
sealed_of (some row) = row.credentials

-- `write::credentials`
unfoldable pub credentials : ℕ → Exec (Option Text)
credentials a = query (λ db. sealed_of (find (has_id a) db.accounts))

-- `UPDATE accounts SET …, updated_at = strftime('now') WHERE p`
unfoldable pub update_accounts : (Account → Bool) → (Account → Account) → Exec (Unit {0})
update_accounts p f = execute (λ db. record db {
  accounts = update_where p (λ row. record (f row) { updated_at = db.clock }) db.accounts;
})

unfoldable pub update_sync_state :
    ℕ → SyncState → Text → Option Text → Option Text → Exec (Unit {0})
update_sync_state a state status at error = update_accounts (has_id a) (λ row. record row {
  sync_state = state;
  sync_status = status;
  last_sync_at = at;
  last_sync_error = error;
})

-- `COALESCE(new, old)`
abbrev pub coalesce : Option Text → Option Text → Option Text
coalesce none old = old
coalesce (some new) old = some new

unfoldable pub update_health : ℕ → Text → Option Text → Option Text → Exec (Unit {0})
update_health a status at error = update_accounts (has_id a) (λ row. record row {
  sync_status = status;
  last_sync_at = coalesce at row.last_sync_at;
  last_sync_error = error;
})

abbrev pub active : Account → Bool
active row = row.is_active

-- The two updates of one transaction are one atomic statement.
unfoldable pub activate_only : ℕ → ℕ → List Account → List Account
activate_only now a rows =
    update_where (has_id a) (λ row. record row { is_active = true; updated_at = now })
      (update_where active (λ row. record row { is_active = false }) rows)

unfoldable pub set_active : ℕ → Exec (Unit {0})
set_active a = execute (λ db. record db { accounts = activate_only db.clock a db.accounts })

-- `ORDER BY updated_at DESC, id`
unfoldable pub comes_first : Account → Account → Bool
comes_first a b = ltb b.updated_at a.updated_at || (a.updated_at == b.updated_at && ltb a.id b.id)

abbrev pub first_of_two : Account → Option Account → Account
first_of_two row none = row
first_of_two row (some best) = if comes_first row best then row else best

-- `ORDER BY updated_at DESC, id LIMIT 1`
unfoldable pub newest : List Account → Option Account
newest [] = none
newest (row ∷ rows) = some (first_of_two row (newest rows))

abbrev pub activate_row : Option Account → List Account → List Account
activate_row none rows = rows
activate_row (some row) rows =
    update_where (has_id row.id) (λ r. record r { is_active = true }) rows

unfoldable pub repair_active : List Account → List Account
repair_active rows = if any active rows then rows else activate_row (newest rows) rows

unfoldable pub reconcile_active : Exec (Unit {0})
reconcile_active = execute (λ db. record db { accounts = repair_active db.accounts })
