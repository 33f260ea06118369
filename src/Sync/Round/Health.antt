-- ===== src/Sync/Round/Health.antt =====
-- What a round of `SyncEngine::round` leaves in the rows of the accounts and of the mail.
use lagoon_email.Prelude.{
  ℕ, ◌≡◌, ◌≢◌, refl, ap, ◌∙◌, Text, Option, none, some, List, Result, ok, err, arith, Bool-cases,
  inl, inr, filter,
}
use lagoon_email.Store.Table.{Account, Db, Header, SyncCursor, SyncState, WriteError, update_where}
use lagoon_email.Store.Headers.{BodyKey}
use lagoon_email.Store.Accounts.{
  has_id, find_account, credentials, update_health, update_sync_state, update_accounts,
}
use lagoon_email.Store.Keeps.{Keeps, Keeps-execute, Keeps-query, Keeps-bind}
use lagoon_email.Store.Rows.{filter-update_where}
use lagoon_email.Sync.ChangeSet.{MailChangeSet}
use lagoon_email.Sync.Apply.{apply, advance}
use lagoon_email.Sync.Apply.Isolation.{of_account, apply-keeps_other_accounts}
use lagoon_email.Sync.Apply.CursorLast.{land-Keeps}
use lagoon_email.Sync.Round.{
  ProviderError, auth_failed, unreachable, not_configured, protocol, message_gone, not_found,
  too_large, World, Engine, next_failure, mark_needs_reconnect, fail_round, after_error, advise,
  after_apply, after_pull, with_provider, with_credentials, with_account, round, state_of,
  ok_or_none, open_sealed,
}

module _ (a b : ℕ) (apart : a ≢ b) (accounts : List Account) (headers : List Header) where
  abbrev Same : Db → Type 0
  Same db =
      (filter (has_id b) db.accounts ≡ accounts) × (filter (of_account b) db.headers ≡ headers)

  updated :
      (f : Account → Account) (rows : List Account)
      → ((row : Account) → (f row).id ≡ row.id)
      → filter (has_id b) (update_where (has_id a) f rows) ≡ filter (has_id b) rows
  updated f rows same =
      filter-update_where (has_id b) (has_id a) f rows (λ x e. ground arith)
        (λ x e. ground (arith, same x))

  update_accounts-Same :
      (f : Account → Account)
      → ((row : Account) → (f row).id ≡ row.id)
      → Keeps Same (update_accounts (has_id a) f)
  unfolding update_accounts
  update_accounts-Same f same =
      Keeps-execute _ (λ db h. (updated _ db.accounts (λ row. same row) ∙ h.0, h.1))

  update_health-Same : (x : Text) (at e : Option Text) → Keeps Same (update_health a x at e)
  unfolding update_health
  update_health-Same x at e = update_accounts-Same _ (λ row. refl)

  advance-accounts :
      (now : Text) (changes : MailChangeSet) (previous : SyncState)
      → Keeps (λ db. filter (has_id b) db.accounts ≡ accounts) (advance a now changes previous)
  unfolding advance update_sync_state update_health update_accounts
  advance-accounts now changes previous =
      Keeps-bind _ _ (Keeps-execute _ (λ db h. updated _ db.accounts (λ row. refl) ∙ h))
        (λ _. Keeps-execute _ (λ db h. updated _ db.accounts (λ row. refl) ∙ h))

  apply-accounts :
      (key : Option BodyKey) (now : Text) (changes : MailChangeSet) (previous : SyncState)
      → Keeps (λ db. filter (has_id b) db.accounts ≡ accounts) (apply a key now changes previous)
  unfolding apply
  apply-accounts key now changes previous =
      Keeps-bind _ _
        (record {
          at = λ s h.
              ap (filter (has_id b)) ((land-Keeps s.db.accounts a key changes).at s refl) ∙ h;
        })
        (λ _. advance-accounts now changes previous)

  apply-Same :
      (key : Option BodyKey) (now : Text) (changes : MailChangeSet) (previous : SyncState)
      → Keeps Same (apply a key now changes previous)
  apply-Same key now changes previous = record {
    at = λ s h. (
      (apply-accounts key now changes previous).at s h.0,
      apply-keeps_other_accounts a b key now changes previous s apart ∙ h.1,
    );
  }

  module _ (w : World) where
    fail_round-Same :
        (label : Text) (e : Engine)
        → Same e.store.db
        → Same (fail_round w a label (next_failure a e)).1.store.db
    unfolding fail_round next_failure
    fail_round-Same label e h = (update_health-Same _ _ _).at e.store h

    after_error-Same :
        (error : ProviderError) (e : Engine)
        → Same e.store.db
        → Same (after_error w a error e).1.store.db
    unfolding after_error mark_needs_reconnect
    after_error-Same auth_failed e h = (update_health-Same _ _ _).at e.store h
    after_error-Same (not_configured m) e h = (update_health-Same _ _ _).at e.store h
    after_error-Same (unreachable m) e h = fail_round-Same _ e h
    after_error-Same (protocol m) e h = fail_round-Same _ e h
    after_error-Same message_gone e h = fail_round-Same _ e h
    after_error-Same (not_found m) e h = fail_round-Same _ e h
    after_error-Same (too_large m) e h = fail_round-Same _ e h

    after_apply-Same :
        (changes : MailChangeSet) (r : Result WriteError (Unit {0})) (e : Engine)
        → Same e.store.db
        → Same (after_apply w a changes r e).1.store.db
    unfolding after_apply next_failure advise
    after_apply-Same changes (err x) e h = (update_health-Same _ _ _).at e.store h
    after_apply-Same changes (ok u) e h = h

    after_pull-Same :
        (previous : SyncState) (r : Result ProviderError MailChangeSet) (e : Engine)
        → Same e.store.db
        → Same (after_pull w a previous r e).1.store.db
    unfolding after_pull
    after_pull-Same previous (err error) e h = after_error-Same error e h
    after_pull-Same previous (ok changes) e h =
        let (r, s) = apply a (some w.body_key) w.now changes previous e.store in
        after_apply-Same changes r (record e { store = s })
          ((apply-Same (some w.body_key) w.now changes previous).at e.store h)

    with_provider-Same :
        (o : Option (SyncCursor → Result ProviderError MailChangeSet)) (e : Engine)
        → Same e.store.db
        → Same (with_provider w a o e).1.store.db
    unfolding with_provider find_account
    with_provider-Same none e h = (update_health-Same _ _ _).at e.store h
    with_provider-Same (some pull) e h =
        let (r, s) = find_account a e.store in
        after_pull-Same (state_of r) (pull (state_of r).cursor) (record e { store = s })
          ((Keeps-query {P = Same} _).at e.store h)

    with_credentials-Same :
        (o : Option Text) (e : Engine)
        → Same e.store.db
        → Same (with_credentials w a o e).1.store.db
    unfolding with_credentials mark_needs_reconnect
    with_credentials-Same none e h = (update_health-Same _ _ _).at e.store h
    with_credentials-Same (some c) e h = with_provider-Same (w.make c) e h

    with_account-Same :
        (r : Result WriteError (Option Account)) (e : Engine)
        → Same e.store.db
        → Same (with_account w a r e).1.store.db
    unfolding with_account credentials
    with_account-Same (err x) e h = h
    with_account-Same (ok none) e h = h
    with_account-Same (ok (some row)) e h =
        let (r, s) = credentials a e.store in
        with_credentials-Same (open_sealed w.open_credentials (ok_or_none r))
          (record e { store = s }) ((Keeps-query {P = Same} _).at e.store h)

    round-Same : (e : Engine) → Same e.store.db → Same (round w a e).1.store.db
    unfolding round next_failure find_account
    round-Same e h = elim (Bool-cases w.store_opens) [
      | inl opens ↦
          let (r, s) = find_account a e.store in
          simp opens
            (with_account-Same r (record e { store = s }) ((Keeps-query {P = Same} _).at e.store h))
      | inr closed ↦ simp closed h
    ]

-- One account's trouble never touches another account: whatever a round of one account ends in, the
-- account rows and the mail of every other account are exactly as before.
pub round-keeps_other_accounts :
    (w : World) (a b : ℕ) (e : Engine)
    → a ≢ b
    → (filter (has_id b) (round w a e).1.store.db.accounts ≡ filter (has_id b) e.store.db.accounts)
      × (filter (of_account b) (round w a e).1.store.db.headers
          ≡ filter (of_account b) e.store.db.headers)
round-keeps_other_accounts w a b e apart =
    round-Same a b apart (filter (has_id b) e.store.db.accounts)
      (filter (of_account b) e.store.db.headers) w e (refl, refl)
