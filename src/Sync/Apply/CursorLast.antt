-- ===== src/Sync/Apply/CursorLast.antt =====
-- The order of writes in `SyncEngine::apply`: the cursor moves last.
use lagoon_email.Prelude.{
  ap, ◌∙◌, sym, ℕ, Text, codes, ◌≡◌, refl, Result, ok, err, Bool, true, false, some, none, Option,
  List, [], ◌∷◌, ◌==◌, arith, find, Bool-cases, inl, inr, contains, ℤ,
}
use lagoon_email.Store.Table.{
  Account, Db, Store, SyncState, WriteError, Exec, ◌>>=◌, continue, update_where, attempt, execute,
}
use lagoon_email.Store.Headers.{
  BodyKey, seal_snippet, upsert_header, set_remote_uid, fill_remote_uids, reconcile_row,
  reconcile_inbox, live_remote_ids, delete_live_rows, NewHeader,
}
use lagoon_email.Store.Accounts.{
  has_id, update_sync_state, update_health, update_accounts, coalesce,
}
use lagoon_email.Store.Actions.Recorded.{Keeps-record_action}
use lagoon_email.Store.Actions.{replied_remote_ids}
use lagoon_email.Store.Keeps.{
  Keeps, Keeps-pure, Keeps-query, Keeps-execute, Keeps-bind, Keeps-for_each, Keeps-ignore, Keeps-if,
  keeps_rules,
}
use lagoon_email.Sync.ChangeSet.{MailChangeSet}
use lagoon_email.Sync.Apply.Owed.{owed, land-Extends}
use lagoon_email.Sync.Apply.{
  apply, land, advance, merge_into, reset_stage, fill_stage, reconcile_stage, replies_stage,
  removed_rows, record_reply, known_replies, new_header,
}

module _ (before : List Account) where
  abbrev pub OfAccounts : Db → Type 0
  OfAccounts db = db.accounts ≡ before

  seal_snippet-Keeps :
      (o : Option Text) (key : Option BodyKey) → Keeps OfAccounts (seal_snippet o key)
  unfolding seal_snippet
  seal_snippet-Keeps none key = search keeps_rules
  seal_snippet-Keeps (some t) none = search keeps_rules
  seal_snippet-Keeps (some t) (some seal) = search keeps_rules

  upsert_header-Keeps :
      (new : NewHeader) (key : Option BodyKey) → Keeps OfAccounts (upsert_header new key)
  unfolding upsert_header
  upsert_header-Keeps new key =
      Keeps-bind _ _ (seal_snippet-Keeps new.snippet key) (λ snippet. Keeps-execute _ (λ db h. h))

  reset_stage-Keeps : (a : ℕ) (b : Bool) → Keeps OfAccounts (reset_stage a b)
  unfolding reset_stage delete_live_rows
  reset_stage-Keeps a true = Keeps-execute _ (λ db h. h)
  reset_stage-Keeps a false = Keeps-pure tt

  set_remote_uid-Keeps : (a : ℕ) (p : Text × ℤ) → Keeps OfAccounts (set_remote_uid a p)
  unfolding set_remote_uid
  set_remote_uid-Keeps a (r, uid) = Keeps-execute _ (λ db h. h)

  fill_stage-Keeps : (a : ℕ) (o : Option (List (Text × ℤ))) → Keeps OfAccounts (fill_stage a o)
  unfolding fill_stage fill_remote_uids
  fill_stage-Keeps a none = Keeps-pure tt
  fill_stage-Keeps a (some uids) = Keeps-bind _ _ (Keeps-query _) (λ missing.
      Keeps-if (missing == 0) _ _ (λ _. Keeps-pure tt)
        (λ _. Keeps-for_each uids _ (set_remote_uid-Keeps a)))

  reconcile_row-Keeps :
      (a : ℕ) (inbox archived trashed removed : List Text) (r : Text)
      → Keeps OfAccounts (reconcile_row a inbox archived trashed removed r)
  unfolding reconcile_row
  reconcile_row-Keeps a inbox archived trashed removed r =
      Keeps-if (contains inbox r) _ _ (λ _. Keeps-pure tt)
        (λ _.
          Keeps-if (contains archived r) _ _ (λ _. Keeps-execute _ (λ db h. h))
            (λ _.
              Keeps-if (contains trashed r) _ _ (λ _. Keeps-execute _ (λ db h. h))
                (λ _.
                  Keeps-if (contains removed r) _ _ (λ _. Keeps-execute _ (λ db h. h))
                    (λ _. Keeps-pure tt))))

  removed_rows-Keeps :
      (a : ℕ) (inbox : List Text) (archived trashed : Option (List Text)) (reported : List Text)
      → Keeps OfAccounts (removed_rows a inbox archived trashed reported)
  unfolding removed_rows live_remote_ids
  removed_rows-Keeps a inbox (some archived) (some trashed) reported =
      Keeps-bind _ _ (Keeps-query _) (λ live. Keeps-pure _)
  removed_rows-Keeps a inbox none trashed reported = Keeps-pure _
  removed_rows-Keeps a inbox (some archived) none reported = Keeps-pure _

  reconcile_stage-Keeps :
      (a : ℕ) (changes : MailChangeSet) (o : Option (List Text))
      → Keeps OfAccounts (reconcile_stage a changes o)
  unfolding reconcile_stage reconcile_inbox live_remote_ids
  reconcile_stage-Keeps a changes none = Keeps-pure tt
  reconcile_stage-Keeps a changes (some inbox) =
      Keeps-bind _ _ (removed_rows-Keeps a inbox _ _ _) (λ removed.
        Keeps-bind _ _ (Keeps-query _)
          (λ local. Keeps-for_each local _ (reconcile_row-Keeps a inbox _ _ removed)))

  record_reply-Keeps :
      (a : ℕ) (known : List Text) (m : Text) → Keeps OfAccounts (record_reply a known m)
  unfolding record_reply
  record_reply-Keeps a known m =
      Keeps-if (contains known m) _ _ (λ _. Keeps-pure tt)
        (λ _. Keeps-ignore _ (Keeps-record_action a _ _ (λ db h. h)))

  replies_stage-Keeps : (a : ℕ) (ids : List Text) → Keeps OfAccounts (replies_stage a ids)
  unfolding replies_stage known_replies replied_remote_ids
  replies_stage-Keeps a [] = Keeps-pure tt
  replies_stage-Keeps a (r ∷ rs) =
      Keeps-bind _ _ (record { at = λ s h. (Keeps-query {P = OfAccounts} _).at s h })
        (λ known. Keeps-for_each (r ∷ rs) _ (record_reply-Keeps a known))

  pub land-Keeps :
      (a : ℕ) (key : Option BodyKey) (changes : MailChangeSet)
      → Keeps OfAccounts (land a key changes)
  unfolding land
  land-Keeps a key changes = Keeps-bind _ _ (reset_stage-Keeps a changes.reset_required) (λ _.
      Keeps-bind _ _
        (Keeps-for_each changes.upserts _ (λ h. upsert_header-Keeps (new_header a h) key))
        (λ _. Keeps-bind _ _ (fill_stage-Keeps a changes.inbox_uids) (λ _.
          Keeps-bind _ _ (reconcile_stage-Keeps a changes changes.inbox_remote_ids)
            (λ _. replies_stage-Keeps a changes.replied_message_ids))))

stopped :
    {A B : Type 0} (r : Result WriteError A) (f : A → Exec B) (s : Store) (e : WriteError)
    → r ≡ err e
    → continue r f s ≡ (err e, s)
unfolding continue
stopped (ok a) f s e h = cc
stopped (err e') f s e h = cc

went_on :
    {A B : Type 0} (r : Result WriteError A) (f : A → Exec B) (s : Store) (v : B)
    → (continue r f s).0 ≡ ok v
    → (x : A) × (r ≡ ok x) × (continue r f s ≡ f x s)
unfolding continue
went_on (ok a) f s v h = (a, refl, refl)
went_on (err e) f s v h = cc

attempt_done :
    (faults : List Bool) (db : Db) (f : Db → Unit {0} × Db)
    → (attempt faults db f).0 ≡ ok tt
    → (attempt faults db f).1.db ≡ (f db).1
unfolding attempt
attempt_done [] db f h = refl
attempt_done (true ∷ rest) db f h = cc
attempt_done (false ∷ rest) db f h = refl

execute_done : (f : Db → Db) (s : Store) → (execute f s).0 ≡ ok tt → (execute f s).1.db ≡ f s.db
unfolding execute
execute_done f s h = attempt_done s.faults s.db (λ db. (tt, f db)) h

executes_done :
    (f g : Db → Db) (s : Store)
    → ((execute f >>= λ (u : Unit {0}). execute g) s).0 ≡ ok tt
    → ((execute f >>= λ (u : Unit {0}). execute g) s).1.db ≡ g (f s.db)
unfolding ◌>>=◌
executes_done f g s done =
    let (u, first, second) =
      went_on (execute f s).0 (λ (u : Unit {0}). execute g) (execute f s).1 tt done in
    ap (λ p. p.1.db) second
    ∙ execute_done g (execute f s).1 (ap (λ p. p.0) (sym second) ∙ done)
    ∙ ap g (execute_done f s first)

-- the rows after the two updates of `advance`
abbrev advanced : ℕ → SyncState → Text → ℕ → ℕ → List Account → List Account
advanced a state now clock later rows =
    update_where (has_id a)
      (λ row. record row {
        sync_status = codes "ok";
        last_sync_at = coalesce none row.last_sync_at;
        last_sync_error = none;
        updated_at = later;
      })
      (update_where (has_id a)
        (λ row. record row {
          sync_state = state;
          sync_status = codes "ok";
          last_sync_at = some now;
          last_sync_error = none;
          updated_at = clock;
        })
        rows)

advance_done :
    (a : ℕ) (now : Text) (changes : MailChangeSet) (previous : SyncState) (s : Store)
    → (advance a now changes previous s).0 ≡ ok tt
    → (c d : ℕ) × ((advance a now changes previous s).1.db.accounts
        ≡ advanced a (merge_into changes.cursor previous) now c d s.db.accounts)
unfolding advance update_sync_state update_health update_accounts ◌>>=◌
advance_done a now changes previous s done =
    (s.db.clock, s.db.clock, ap (λ db. db.accounts) (executes_done _ _ s done))

found_advanced :
    (a : ℕ) (state : SyncState) (now : Text) (c d : ℕ) (rows : List Account) (row : Account)
    → find (has_id a) (advanced a state now c d rows) ≡ some row
    → (row.sync_state ≡ state)
      × (row.sync_status ≡ codes "ok")
      × (row.last_sync_error ≡ none)
      × (row.last_sync_at ≡ some now)
unfolding find update_where
found_advanced a state now c d [] row h = cc
found_advanced a state now c d (x ∷ xs) row h = elim (Bool-cases (has_id a x)) [
  | inl here ↦ ground arith
  | inr there ↦ ground (arith, found_advanced a state now c d xs row)
]

module _ (a : ℕ) (key : Option BodyKey) (now : Text) (changes : MailChangeSet)
    (previous : SyncState) (s : Store) where
  -- If the reset, a message of the pull, the UIDs or the reconciliation cannot be written, the round
  -- returns that error, and the accounts, their cursors with them, are as they were: the next pull starts
  -- from the old position.
  pub apply_stops_before_cursor :
      (e : WriteError)
      → (owed a key changes s).0 ≡ err e
      → ((apply a key now changes previous s).0 ≡ err e)
        × ((apply a key now changes previous s).1.db.accounts ≡ s.db.accounts)
  unfolding apply ◌>>=◌
  apply_stops_before_cursor e refused =
      let failed = (land-Extends a key changes).fails s e refused in
      let rest = λ (u : Unit {0}). advance a now changes previous in
      let stop = stopped (land a key changes s).0 rest (land a key changes s).1 e failed in
      (
        ap (λ p. p.0) stop,
        ap (λ p. p.1.db.accounts) stop ∙ (land-Keeps s.db.accounts a key changes).at s refl,
      )

  -- A round that succeeds has written the reset, every message of the pull, the UIDs and the
  -- reconciliation without an error first, and leaves the account with the cursor of the pull, the keys that the engine does not touch, health `ok`, no error and the time of the round.
  pub apply_moves_cursor :
      (row : Account)
      → (apply a key now changes previous s).0 ≡ ok tt
      → find (has_id a) (apply a key now changes previous s).1.db.accounts ≡ some row
      → ((owed a key changes s).0 ≡ ok tt)
        × (row.sync_state.cursor ≡ changes.cursor)
        × (row.sync_state.other_keys ≡ previous.other_keys)
        × (row.sync_status ≡ codes "ok")
        × (row.last_sync_error ≡ none)
        × (row.last_sync_at ≡ some now)
  unfolding apply ◌>>=◌ merge_into
  apply_moves_cursor row done found =
      let rest = λ (u : Unit {0}). advance a now changes previous in
      let (u, landed, there) =
        went_on (land a key changes s).0 rest (land a key changes s).1 tt done in
      let (c, d, rows) =
        advance_done a now changes previous (land a key changes s).1
          (ap (λ p. p.0) (sym there) ∙ done) in
      let (state, status, error, at) =
        found_advanced a (merge_into changes.cursor previous) now c d
          (land a key changes s).1.db.accounts row
          (ap (find (has_id a)) (sym (ap (λ p. p.1.db.accounts) there ∙ rows)) ∙ found) in
      (
        (land-Extends a key changes).done s landed,
        ap (λ st. st.cursor) state,
        ap (λ st. st.other_keys) state,
        status,
        error,
        at,
      )
