-- ===== src/Sync/Round.antt =====
-- `SyncEngine::round` of crates/lagoon-api/src/sync/mod.rs, `has_provider`, and what the loop does
-- once a round returns. One call is one function of the engine's state; the writer lock makes the
-- applies of several accounts one after another, so a round is atomic in the store.
pub mod Health
pub mod Failures
use lagoon_email.Prelude.{
  ℕ, zero, suc, ◌+◌, ◌*◌, Text, codes, Bool, true, false, not, ◌&&◌, Option, none, some, List, [],
  ◌∷◌, Result, ok, err, length, leb, ◌==◌, if◌then◌else◌,
}
use lagoon_email.Store.Table.{
  Account, SyncCursor, SyncState, Store, Exec, WriteError, execute, query,
}
use lagoon_email.Store.Headers.{BodyKey}
use lagoon_email.Store.Accounts.{has_id, find_account, credentials, update_health}
use lagoon_email.Sync.ChangeSet.{MailChangeSet}
use lagoon_email.Sync.Apply.{apply}
use lagoon_email.Sync.Backoff.{second, backoff_seconds}
use lagoon_email.Sync.Triage.{Advisor, TriageTarget, Triaged, triage}

-- `ProviderError`
pub data ProviderError : Type 0 where
  auth_failed : ProviderError
  unreachable : Text → ProviderError
  not_configured : Text → ProviderError
  protocol : Text → ProviderError
  message_gone : ProviderError
  not_found : Text → ProviderError
  too_large : Text → ProviderError

pub data ParkReason : Type 0 where
  needs_reconnect account_missing : ParkReason

pub data RoundOutcome : Type 0 where
  applied : ℕ → Bool → Bool → RoundOutcome
  parked : ParkReason → RoundOutcome
  no_provider : RoundOutcome
  not_found_row : RoundOutcome
  failed : Text → ℕ → ℕ → RoundOutcome

-- What a round asks for outside the crate: whether the store opens, how a sealed credential is
-- opened, which mailbox the credentials give, what it answers to a pull, the advisor, the clock and
-- the random byte of the jitter.
pub record World : Type 0 where
  pub store_opens : Bool
  pub open_credentials : Option (Text → Option Text)
  pub make : Text → Option (SyncCursor → Result ProviderError MailChangeSet)
  pub body_key : BodyKey
  pub advisor : Option Advisor
  pub now : Text
  pub byte : ℕ

pub record Engine : Type 0 where
  pub store : Store
  pub failures : List (ℕ × ℕ)
  pub backlogs : List (ℕ × List TriageTarget)

module _ {V : Type 0} where
  -- a map by account
  unfoldable pub get_or : V → ℕ → List (ℕ × V) → V
  get_or default a [] = default
  get_or default a ((b, v) ∷ m) = if b == a then v else get_or default a m

  unfoldable pub insert : ℕ → V → List (ℕ × V) → List (ℕ × V)
  insert a v [] = (a, v) ∷ []
  insert a v ((b, w) ∷ m) = if b == a then (a, v) ∷ m else (b, w) ∷ insert a v m

-- `next_failure`; the `u32` of the source is not near its end
unfoldable pub next_failure : ℕ → Engine → ℕ × Engine
next_failure a e =
    let n = suc (get_or 0 a e.failures) in (n, record e { failures = insert a n e.failures })

-- a write whose error is dropped
abbrev pub writing : {A : Type 0} → Exec A → Engine → Engine
writing m e = record e { store = (m e.store).1 }

unfoldable pub mark_needs_reconnect : ℕ → Text → Engine → Engine
mark_needs_reconnect a label e =
    writing (update_health a (codes "needsReconnect") none (some label)) e

abbrev pub label_of : ProviderError → Text
label_of (unreachable m) = codes "unreachable"
label_of (protocol m) = codes "protocol-error"
label_of _ = codes "provider"

abbrev pub status_of : ℕ → Text
status_of n = if leb 3 n then codes "degraded" else codes "error"

unfoldable pub fail_round : World → ℕ → Text → ℕ × Engine → RoundOutcome × Engine
fail_round w a label (n, e) = (
  failed label n (backoff_seconds n w.byte),
  writing (update_health a (status_of n) none (some label)) e,
)

-- `let … = changes else`: what a pull that failed leads to
unfoldable pub after_error : World → ℕ → ProviderError → Engine → RoundOutcome × Engine
after_error w a auth_failed e =
    (parked needs_reconnect, mark_needs_reconnect a (codes "auth-failed") e)
after_error w a (not_configured m) e =
    (parked needs_reconnect, mark_needs_reconnect a (codes "not-configured") e)
after_error w a error e = fail_round w a (label_of error) (next_failure a e)

unfoldable pub advise : World → ℕ → MailChangeSet → Engine → Engine
advise w a changes e =
    let t = triage w.advisor changes.upserts (get_or [] a e.backlogs) in
    record e { backlogs = insert a t.backlog e.backlogs }

unfoldable pub after_apply :
    World → ℕ → MailChangeSet → Result WriteError (Unit {0}) → Engine → RoundOutcome × Engine
after_apply w a changes (err x) e =
    let (n, e') = next_failure a e in
    (
      failed (codes "store") n (backoff_seconds n w.byte),
      writing (update_health a (codes "error") none (some (codes "store"))) e',
    )
after_apply w a changes (ok u) e =
    let e' = advise w a changes e in
    (
      applied (length changes.upserts) changes.reset_required changes.waited,
      record e' { failures = insert a 0 e'.failures },
    )

unfoldable pub after_pull :
    World → ℕ → SyncState → Result ProviderError MailChangeSet → Engine → RoundOutcome × Engine
after_pull w a previous (err error) e = after_error w a error e
after_pull w a previous (ok changes) e =
    let (r, s) = apply a (some w.body_key) w.now changes previous e.store in
    after_apply w a changes r (record e { store = s })

-- `{}`, where the state cannot be read
abbrev pub empty_state : SyncState
empty_state = record { cursor = record { uid_validity = none; last_uid = none }; other_keys = [] }

abbrev pub state_of : Result WriteError (Option Account) → SyncState
state_of (ok (some row)) = row.sync_state
state_of (ok none) = empty_state
state_of (err x) = empty_state

unfoldable pub with_provider :
    World
    → ℕ
    → Option (SyncCursor → Result ProviderError MailChangeSet)
    → Engine
    → RoundOutcome × Engine
with_provider w a none e =
    (no_provider, writing (update_health a (codes "error") none (some (codes "no-provider"))) e)
with_provider w a (some pull) e =
    let (r, s) = find_account a e.store in
    let previous = state_of r in
    after_pull w a previous (pull previous.cursor) (record e { store = s })

abbrev pub ok_or_none : Result WriteError (Option Text) → Option Text
ok_or_none (ok o) = o
ok_or_none (err x) = none

abbrev pub open_sealed : Option (Text → Option Text) → Option Text → Option Text
open_sealed (some unseal) (some sealed) = unseal sealed
open_sealed _ _ = none

unfoldable pub with_credentials : World → ℕ → Option Text → Engine → RoundOutcome × Engine
with_credentials w a none e =
    (parked needs_reconnect, mark_needs_reconnect a (codes "not-configured") e)
with_credentials w a (some c) e = with_provider w a (w.make c) e

unfoldable pub with_account :
    World → ℕ → Result WriteError (Option Account) → Engine → RoundOutcome × Engine
with_account w a (err x) e = (not_found_row, e)
with_account w a (ok none) e = (parked account_missing, e)
with_account w a (ok (some row)) e =
    let (r, s) = credentials a e.store in
    with_credentials w a (open_sealed w.open_credentials (ok_or_none r)) (record e { store = s })

unfoldable pub round : World → ℕ → Engine → RoundOutcome × Engine
round w a e =
    if w.store_opens
    then (let (r, s) = find_account a e.store in with_account w a r (record e { store = s }))
    else (let (n, e') = next_failure a e in (failed (codes "store") n (5 * second), e'))

pub data AfterRound : Type 0 where
  stop : AfterRound
  wait : ℕ → AfterRound

abbrev pub idle_wait : ℕ
idle_wait = 300 * second

unfoldable pub after_round : RoundOutcome → AfterRound
after_round (parked reason) = stop
after_round not_found_row = stop
after_round (failed label n pause) = wait pause
after_round (applied n reset true) = wait 0
after_round (applied n reset false) = wait idle_wait
after_round no_provider = wait idle_wait

-- `has_provider`, on the store's answer to the credentials query
unfoldable pub has_provider : World → ℕ → Store → Bool
has_provider w a s =
    w.store_opens && elim (open_sealed w.open_credentials (ok_or_none (credentials a s).0)) [
      | none ↦ false
      | some c ↦ elim (w.make c) [ none ↦ false | some pull ↦ true ]
    ]
