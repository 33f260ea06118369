-- ===== src/Sync/Round/Failures.antt =====
-- The count of failures in a row that `SyncEngine::round` keeps for each account.
use lagoon_email.Prelude.{
  ℕ, suc, ◌≡◌, ◌≢◌, refl, sym, Text, Option, none, some, List, [], ◌∷◌, Result, ok, err, ◌==◌,
  if◌then◌else◌, arith, Bool-cases, inl, inr,
}
use lagoon_email.Store.Table.{Account, SyncCursor, SyncState, WriteError}
use lagoon_email.Store.Accounts.{find_account, credentials}
use lagoon_email.Sync.ChangeSet.{MailChangeSet}
use lagoon_email.Sync.Apply.{apply}
use lagoon_email.Sync.Round.{
  ProviderError, auth_failed, unreachable, not_configured, protocol, message_gone, not_found,
  too_large, RoundOutcome, applied, parked, no_provider, not_found_row, failed, World, Engine,
  get_or, insert, next_failure, mark_needs_reconnect, fail_round, after_error, advise, after_apply,
  after_pull, with_provider, with_credentials, with_account, round, state_of, ok_or_none,
  open_sealed,
}

module _ {V : Type 0} where
  pub get_or-insert :
      (default v : V) (a b : ℕ) (m : List (ℕ × V))
      → get_or default b (insert a v m) ≡ (if a == b then v else get_or default b m)
  unfolding get_or insert
  get_or-insert default v a b [] = refl
  get_or-insert default v a b ((c, w) ∷ m) = ground (arith, get_or-insert default v a b m)

-- the count that an outcome leaves, from the count before
abbrev pub counted : RoundOutcome → ℕ → ℕ
counted (applied n reset waited) k = 0
counted (failed label n pause) k = suc k
counted (parked reason) k = k
counted no_provider k = k
counted not_found_row k = k

-- a failed round reports its own count
abbrev pub Reports : RoundOutcome → ℕ → Type 0
Reports (failed label n pause) k = n ≡ k
Reports (applied n reset waited) k = Unit
Reports (parked reason) k = Unit
Reports no_provider k = Unit
Reports not_found_row k = Unit

abbrev pub Counts : ℕ → Engine → RoundOutcome × Engine → Type 0
Counts a e r =
    (get_or 0 a r.1.failures ≡ counted r.0 (get_or 0 a e.failures))
    × Reports r.0 (get_or 0 a r.1.failures)
    × ((b : ℕ) → a ≢ b → get_or 0 b r.1.failures ≡ get_or 0 b e.failures)

module _ (a v : ℕ) (m : List (ℕ × ℕ)) where
  own : get_or 0 a (insert a v m) ≡ v
  own = rw (get_or-insert 0 v a a m) (ground arith)

  others : (b : ℕ) → a ≢ b → get_or 0 b (insert a v m) ≡ get_or 0 b m
  others b apart = rw (get_or-insert 0 v a b m) (ground arith)

module _ (w : World) (a : ℕ) where
  fail_round-Counts :
      (label : Text) (e : Engine) → Counts a e (fail_round w a label (next_failure a e))
  unfolding fail_round next_failure
  fail_round-Counts label e =
      let n = suc (get_or 0 a e.failures) in
      (own a n e.failures, sym (own a n e.failures), others a n e.failures)

  after_error-Counts : (error : ProviderError) (e : Engine) → Counts a e (after_error w a error e)
  unfolding after_error mark_needs_reconnect
  after_error-Counts auth_failed e = (refl, tt, λ b apart. refl)
  after_error-Counts (not_configured m) e = (refl, tt, λ b apart. refl)
  after_error-Counts (unreachable m) e = fail_round-Counts _ e
  after_error-Counts (protocol m) e = fail_round-Counts _ e
  after_error-Counts message_gone e = fail_round-Counts _ e
  after_error-Counts (not_found m) e = fail_round-Counts _ e
  after_error-Counts (too_large m) e = fail_round-Counts _ e

  after_apply-Counts :
      (changes : MailChangeSet) (r : Result WriteError (Unit {0})) (e : Engine)
      → Counts a e (after_apply w a changes r e)
  unfolding after_apply next_failure advise
  after_apply-Counts changes (err x) e =
      let n = suc (get_or 0 a e.failures) in
      (own a n e.failures, sym (own a n e.failures), others a n e.failures)
  after_apply-Counts changes (ok u) e = (own a 0 e.failures, tt, others a 0 e.failures)

  after_pull-Counts :
      (previous : SyncState) (r : Result ProviderError MailChangeSet) (e : Engine)
      → Counts a e (after_pull w a previous r e)
  unfolding after_pull
  after_pull-Counts previous (err error) e = after_error-Counts error e
  after_pull-Counts previous (ok changes) e =
      let (r, s) = apply a (some w.body_key) w.now changes previous e.store in
      after_apply-Counts changes r (record e { store = s })

  with_provider-Counts :
      (o : Option (SyncCursor → Result ProviderError MailChangeSet)) (e : Engine)
      → Counts a e (with_provider w a o e)
  unfolding with_provider
  with_provider-Counts none e = (refl, tt, λ b apart. refl)
  with_provider-Counts (some pull) e =
      let (r, s) = find_account a e.store in
      after_pull-Counts (state_of r) (pull (state_of r).cursor) (record e { store = s })

  with_credentials-Counts : (o : Option Text) (e : Engine) → Counts a e (with_credentials w a o e)
  unfolding with_credentials mark_needs_reconnect
  with_credentials-Counts none e = (refl, tt, λ b apart. refl)
  with_credentials-Counts (some c) e = with_provider-Counts (w.make c) e

  with_account-Counts :
      (r : Result WriteError (Option Account)) (e : Engine) → Counts a e (with_account w a r e)
  unfolding with_account
  with_account-Counts (err x) e = (refl, tt, λ b apart. refl)
  with_account-Counts (ok none) e = (refl, tt, λ b apart. refl)
  with_account-Counts (ok (some row)) e =
      let (r, s) = credentials a e.store in
      with_credentials-Counts (open_sealed w.open_credentials (ok_or_none r))
        (record e { store = s })

round-Counts : (w : World) (a : ℕ) (e : Engine) → Counts a e (round w a e)
unfolding round next_failure
round-Counts w a e = elim (Bool-cases w.store_opens) [
  | inl opens ↦
      let (r, s) = find_account a e.store in
      simp opens (with_account-Counts w a r (record e { store = s }))
  | inr closed ↦
      let n = suc (get_or 0 a e.failures) in
      simp closed (own a n e.failures, sym (own a n e.failures), others a n e.failures)
]

-- The failure counts follow the outcomes: a failed round adds one and reports the new count, a round
-- that was applied sets the count to zero, every other outcome leaves it, and the count of another
-- account never changes.
pub round_counts :
    (w : World) (a b : ℕ) (e : Engine)
    → a ≢ b
    → (get_or 0 a (round w a e).1.failures ≡ counted (round w a e).0 (get_or 0 a e.failures))
      × Reports (round w a e).0 (get_or 0 a (round w a e).1.failures)
      × (get_or 0 b (round w a e).1.failures ≡ get_or 0 b e.failures)
round_counts w a b e apart =
    let (here, reported, elsewhere) = round-Counts w a e in (here, reported, elsewhere b apart)
