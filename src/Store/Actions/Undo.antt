-- ===== src/Store/Actions/Undo.antt =====
-- Undoing an action: `is_undone` of crates/lagoon-api/src/store/write.rs, and the claim that an undo
-- takes with `record_undo` and gives back with `delete_action_row`.
use lagoon_email.Prelude.{
  ℕ, ◌<◌, ◌≡◌, ◌≢◌, refl, ap, ◌∙◌, codes, text_eq, text_eq_refl, Bool, true, false, not, ◌&&◌, ◌||◌,
  Option, none, some, List, [], ◌∷◌, ◌++◌, ok, ◌==◌, arith, any, filter, All,
}
use lagoon_email.Store.Table.{Action, Db, Exec, statement, query, execute}
use lagoon_email.Store.Actions.{
  record_undo, record_action, delete_action_row, empty_payload, with_id,
}
use lagoon_email.Store.Table.{◌>>=◌}
use lagoon_email.Store.Accounts.{has_id}
use lagoon_email.Store.Actions.{try_insert}
use lagoon_email.Store.Actions.Claim.{steady}

abbrev pub names_action : ℕ → Option ℕ → Bool
names_action id none = false
names_action id (some undone) = undone == id

unfoldable pub undoes : ℕ → ℕ → Action → Bool
undoes a id row =
    row.account_id == a && (text_eq row.kind (codes "undo") && names_action id row.payload.undo_of)

unfoldable pub is_undone : ℕ → ℕ → Exec Bool
is_undone a id = query (λ db. any (undoes a id) db.actions)

-- the row that `record_undo` writes
abbrev undo_row : ℕ → ℕ → Db → Action
undo_row a id db = record {
  id = db.next_id;
  account_id = a;
  kind = codes "undo";
  payload = record empty_payload { undo_of = some id };
}

any_last :
    (p : Action → Bool) (rows : List Action) (y : Action)
    → any p (rows ++ y ∷ []) ≡ (any p rows || p y)
unfolding any
any_last p [] y = ground arith
any_last p (x ∷ xs) y = ground (arith, any_last p xs y)

undo_row-undoes : (a id : ℕ) (db : Db) → undoes a id (undo_row a id db) ≡ true
unfolding undoes
undo_row-undoes a id db = ground (arith, text_eq_refl (codes "undo"))

undo_row_alone : (a id j : ℕ) (db : Db) → id ≢ j → undoes a j (undo_row a id db) ≡ false
unfolding undoes
undo_row_alone a id j db apart = ground arith

-- the ids that are given out are new
abbrev pub IsFresh : Db → Type 0
IsFresh db = All (λ row. row.id < db.next_id) db.actions

removed_last :
    (n : ℕ) (rows : List Action) (y : Action)
    → All (λ row. row.id < n) rows
    → y.id ≡ n
    → filter (λ row. not (with_id n row)) (rows ++ y ∷ []) ≡ rows
unfolding filter
removed_last n [] y fresh e = ground arith
removed_last n (x ∷ xs) y (new, fresh) e = ground (arith, removed_last n xs y fresh e)

-- For a known account, on a store whose statements do not fail and whose next id is new: after an undo is recorded its action
-- counts as undone, every other action counts as before, and giving the undo back restores the log.
pub record_undo-is_undone :
    (a id j : ℕ) (db : Db)
    → any (has_id a) db.accounts ≡ true
    → IsFresh db
    → id ≢ j
    → ((record_undo a id (steady db)).0 ≡ ok db.next_id)
      × ((is_undone a id (record_undo a id (steady db)).1).0 ≡ ok true)
      × ((is_undone a j (record_undo a id (steady db)).1).0 ≡ (is_undone a j (steady db)).0)
      × ((delete_action_row db.next_id (record_undo a id (steady db)).1).1.db.actions ≡ db.actions)
unfolding record_undo record_action try_insert delete_action_row is_undone statement query execute
    text_eq ◌>>=◌
record_undo-is_undone a id j db known fresh apart =
    let row = undo_row a id db in
    rw known (
      refl,
      ap (λ b. ok b)
          (any_last (undoes a id) db.actions row ∙ ground (arith, undo_row-undoes a id db)),
      ap (λ b. ok b)
          (any_last (undoes a j) db.actions row ∙ ground (arith, undo_row_alone a id j db apart)),
      removed_last db.next_id db.actions row fresh refl,
    )
