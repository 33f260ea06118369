-- ===== src/Sync/Apply/Isolation.antt =====
-- What `SyncEngine::apply` does to the rows of the other accounts.
use lagoon_email.Prelude.{
  ◌==◌, ℕ, Text, ◌≡◌, ◌≢◌, refl, ◌∙◌, Bool, true, false, not, ◌&&◌, List, [], ◌∷◌, arith, All,
  filter, any, Bool-cases, inl, inr, Option, ℤ,
}
use lagoon_email.Store.Table.{Header, SyncState, Store}
use lagoon_email.Store.Headers.{
  NewHeader, BodyKey, keyed, is_live, in_inbox, uid_differs, insert_or_update,
}
use lagoon_email.Store.Rows.{filter-filter, filter-update_where, filter_last}
use lagoon_email.Sync.ChangeSet.{MailChangeSet}
use lagoon_email.Sync.Apply.{apply}
use lagoon_email.Sync.Apply.Carry.{Carried, apply-Keeps}

abbrev pub of_account : ℕ → Header → Bool
of_account b h = h.account_id == b

All-trivial : (xs : List Text) → All (λ r. Unit {0}) xs
All-trivial [] = tt
All-trivial (x ∷ xs) = (tt, All-trivial xs)

module _ (a b : ℕ) (apart : a ≢ b) (kept : List Header) where
  abbrev Same : List Header → Type 0
  Same rows = filter (of_account b) rows ≡ kept

  not_keyed : (r : Text) (h : Header) → keyed a r h ≡ true → of_account b h ≡ false
  not_keyed r h e = ground arith

  other_spared : (r : Text) (h : Header) → of_account b h ≡ true → not (keyed a r h) ≡ true
  other_spared r h e = ground arith

  other_not_live : (h : Header) → of_account b h ≡ true → not (is_live a h) ≡ true
  other_not_live h e = ground arith

  new_row_apart :
      (new : NewHeader)
      → new.account_id ≡ a
      → (h : Header) → keyed new.account_id new.remote_id h ≡ true
      → of_account b h ≡ false
  new_row_apart new e h k = ground arith

  uid_row_apart :
      (r : Text) (uid : ℤ) (h : Header)
      → (keyed a r h && (in_inbox a h && uid_differs uid h.remote_uid)) ≡ true
      → of_account b h ≡ false
  uid_row_apart r uid h k = ground arith

  upsert-Same :
      (new : NewHeader) (snippet : Option Text)
      → new.account_id ≡ a
      → (rows : List Header) → Same rows
      → Same (insert_or_update new snippet rows)
  unfolding insert_or_update
  upsert-Same new snippet e rows same =
      elim (Bool-cases (any (keyed new.account_id new.remote_id) rows)) [
        | inl old ↦ rw old (
            filter-update_where (of_account b) _ _ rows (new_row_apart new e) (new_row_apart new e)
            ∙ same)
        | inr fresh ↦ rw fresh (filter_last (of_account b) rows _ (ground arith) ∙ same)
      ]

  carried : (changes : MailChangeSet) → Carried a changes (λ r. Unit {0}) Same
  carried changes = record {
    wipe = λ _ rows same. filter-filter (of_account b) _ rows other_not_live ∙ same;
    upsert = upsert-Same;
    move_uid = λ r uid rows same.
        filter-update_where (of_account b) _ _ rows (uid_row_apart r uid) (uid_row_apart r uid)
        ∙ same;
    live = λ rows same. All-trivial _;
    archive = λ r q rows same.
        filter-update_where (of_account b) _ _ rows (not_keyed r) (not_keyed r) ∙ same;
    trash = λ r q rows same.
        filter-update_where (of_account b) _ _ rows (not_keyed r) (not_keyed r) ∙ same;
    delete =
        λ r q inbox e may rows same. filter-filter (of_account b) _ rows (other_spared r) ∙ same;
  }

-- A round for one account leaves the rows of every other account exactly as they were, in the same
-- order, whichever of its statements fails.
pub apply-keeps_other_accounts :
    (a b : ℕ) (key : Option BodyKey) (now : Text) (changes : MailChangeSet) (previous : SyncState)
    (s : Store)
    → a ≢ b
    → filter (of_account b) (apply a key now changes previous s).1.db.headers
      ≡ filter (of_account b) s.db.headers
apply-keeps_other_accounts a b key now changes previous s apart =
    (apply-Keeps (carried a b apart (filter (of_account b) s.db.headers) changes) key now
        previous).at
      s refl
