-- ===== src/Sync/Apply/Owed.antt =====
-- What `SyncEngine::apply` writes before its cursor moves, and that a failure in it ends the round.
use lagoon_email.Prelude.{ℕ, Option, Result, ok, err, ◌≡◌, refl}
use lagoon_email.Store.Table.{Store, WriteError, Exec, ◌>>=◌, continue, for_each}
use lagoon_email.Store.Headers.{BodyKey, upsert_header}
use lagoon_email.Sync.ChangeSet.{MailChangeSet}
use lagoon_email.Sync.Apply.{land, reset_stage, fill_stage, reconcile_stage, new_header}

-- The writes that a round owes before its cursor moves: the reset, each message of the pull, the UIDs and
-- the reconciliation. The replies are not among them.
abbrev pub owed : ℕ → Option BodyKey → MailChangeSet → Exec (Unit {0})
owed a key changes = reset_stage a changes.reset_required >>= λ _.
    for_each changes.upserts (λ h. upsert_header (new_header a h) key) >>= λ _.
    fill_stage a changes.inbox_uids >>= λ _. reconcile_stage a changes changes.inbox_remote_ids

-- an operation that ends as another one does, or goes on behind it
pub record Extends (short long : Exec (Unit {0})) : Type 0 where
  pub fails : (s : Store) (e : WriteError) → (short s).0 ≡ err e → (long s).0 ≡ err e
  pub done : (s : Store) → (long s).0 ≡ ok tt → (short s).0 ≡ ok tt

Extends-behind : (m n : Exec (Unit {0})) → Extends m (m >>= λ (u : Unit {0}). n)
unfolding ◌>>=◌ continue
Extends-behind m n = record { fails = λ s. fails (m s); done = λ s. done (m s) }
  where
    fails :
        (r : Result WriteError (Unit {0}) × Store) (e : WriteError)
        → r.0 ≡ err e
        → (continue r.0 (λ _. n) r.1).0 ≡ err e
    fails (ok u, s) e h = cc
    fails (err f, s) e h = h

    done :
        (r : Result WriteError (Unit {0}) × Store)
        → (continue r.0 (λ _. n) r.1).0 ≡ ok tt
        → r.0 ≡ ok tt
    done (ok u, s) h = refl
    done (err f, s) h = cc

Extends-within :
    (m short long : Exec (Unit {0}))
    → Extends short long
    → Extends (m >>= λ (u : Unit {0}). short) (m >>= λ (u : Unit {0}). long)
unfolding ◌>>=◌ continue
Extends-within m short long x = record { fails = λ s. fails (m s); done = λ s. done (m s) }
  where
    fails :
        (r : Result WriteError (Unit {0}) × Store) (e : WriteError)
        → (continue r.0 (λ _. short) r.1).0 ≡ err e
        → (continue r.0 (λ _. long) r.1).0 ≡ err e
    fails (ok u, s) e h = x.fails s e h
    fails (err f, s) e h = h

    done :
        (r : Result WriteError (Unit {0}) × Store)
        → (continue r.0 (λ _. long) r.1).0 ≡ ok tt
        → (continue r.0 (λ _. short) r.1).0 ≡ ok tt
    done (ok u, s) h = x.done s h
    done (err f, s) h = cc

pub land-Extends :
    (a : ℕ) (key : Option BodyKey) (changes : MailChangeSet)
    → Extends (owed a key changes) (land a key changes)
unfolding land
land-Extends a key changes =
    Extends-within _ _ _ (Extends-within _ _ _ (Extends-within _ _ _ (Extends-behind _ _)))
