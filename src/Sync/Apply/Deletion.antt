-- ===== src/Sync/Apply/Deletion.antt =====
-- Which rows `SyncEngine::apply` may delete.
use lagoon_email.Prelude.{
  ℕ, Text, text_eq, text_eq_iff, ◌≡◌, true, false, not, some, List, [], ◌∷◌, arith, All, filter,
  any, Bool-cases, inl, inr, Option, subst,
}
use lagoon_email.Store.Table.{Header, SyncState, Store}
use lagoon_email.Store.Headers.{NewHeader, BodyKey, keyed, insert_or_update}
use lagoon_email.Store.Rows.{any-filter, any-update_where, any-append}
use lagoon_email.Sync.ChangeSet.{MailChangeSet}
use lagoon_email.Sync.Apply.{apply}
use lagoon_email.Sync.Apply.Carry.{Carried, MayDelete, apply-Keeps}

module _ (a : ℕ) (r : Text) (changes : MailChangeSet) (no_reset : changes.reset_required ≡ false)
    (spared : (inbox : List Text)
      → changes.inbox_remote_ids ≡ some inbox
      → ¬ MayDelete changes inbox r) where
  abbrev Held : List Header → Type 0
  Held rows = any (keyed a r) rows ≡ true

  Anything : Text → Type 0
  Anything r' = Unit

  All-Anything : (xs : List Text) → All Anything xs
  unfolding Anything
  All-Anything [] = tt
  All-Anything (x ∷ xs) = (tt, All-Anything xs)

  upsert-Held :
      (new : NewHeader) (snippet : Option Text)
      → (rows : List Header) → Held rows
      → Held (insert_or_update new snippet rows)
  unfolding insert_or_update
  upsert-Held new snippet rows held =
      elim (Bool-cases (any (keyed new.account_id new.remote_id) rows)) [
        | inl old ↦ rw old (any-update_where (keyed a r) _ _ rows (λ h k. k) held)
        | inr fresh ↦ rw fresh (any-append (keyed a r) rows _ held)
      ]

  delete-Held :
      (r' : Text) (inbox : List Text)
      → changes.inbox_remote_ids ≡ some inbox
      → MayDelete changes inbox r'
      → (rows : List Header) → Held rows
      → Held (filter (λ h. not (keyed a r' h)) rows)
  delete-Held r' inbox e may rows held = elim (Bool-cases (text_eq r' r)) [
    | inl same ↦
        absurd (spared inbox e (subst (MayDelete changes inbox) ((text_eq_iff r' r).0 same) may))
    | inr apart ↦
        any-filter (keyed a r) _ rows
          (λ h k.
            ground (arith, text_eq_iff h.remote_id r, text_eq_iff h.remote_id r', text_eq_iff r' r))
          held
  ]

  carried : Carried a changes Anything Held
  carried = record {
    wipe = λ reset rows held. cc reset;
    upsert = λ new snippet e rows held. upsert-Held new snippet rows held;
    move_uid = λ r' uid rows held. any-update_where (keyed a r) _ _ rows (λ h k. k) held;
    live = λ rows held. All-Anything _;
    archive = λ r' q rows held. any-update_where (keyed a r) _ _ rows (λ h k. k) held;
    trash = λ r' q rows held. any-update_where (keyed a r) _ _ rows (λ h k. k) held;
    delete = λ r' q inbox e may rows held. delete-Held r' inbox e may rows held;
  }

-- A row is deleted only on the provider's word. Unless the pull asks for a reset, a stored message
-- keeps a row through the round if it may not be deleted: if the pull reports no inbox membership at
-- all, or if one of the three folders holds it when the membership of all three is known, or if it
-- is not among the removed ones when that of the archive or of the trash is unknown.
pub apply-deletes_only_removable :
    (a : ℕ) (r : Text) (key : Option BodyKey) (now : Text) (changes : MailChangeSet)
    (previous : SyncState) (s : Store)
    → changes.reset_required ≡ false
    → ((inbox : List Text) → changes.inbox_remote_ids ≡ some inbox → ¬ MayDelete changes inbox r)
    → any (keyed a r) s.db.headers ≡ true
    → any (keyed a r) (apply a key now changes previous s).1.db.headers ≡ true
apply-deletes_only_removable a r key now changes previous s no_reset spared held =
    (apply-Keeps (carried a r changes no_reset spared) key now previous).at s held
