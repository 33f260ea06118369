-- ===== src/Store/Accounts/Active.antt =====
-- `set_active` and `reconcile_active` of crates/lagoon-api/src/store/write.rs: which account is
-- selected.
use lagoon_email.Prelude.{
  ℕ, ◌≤◌, ◌≡◌, refl, ap, ◌∙◌, sym, Bool, true, false, Option, none, some, List, [], ◌∷◌, map, ◌==◌,
  arith, any, All, filter, length, if◌then◌else◌, Bool-cases, inl, inr, ◌⊎◌, Text, ok, err, subst,
}
use mathlib.Core.Option.{some-injective}
use mathlib.Core.Path.{ap₂}
use lagoon_email.Store.Table.{Account, Db, Store, sqlite, update_where, execute, attempt}
use lagoon_email.Store.Accounts.{
  has_id, active, activate_only, set_active, comes_first, first_of_two, newest, repair_active,
}

-- the part of a row that selecting accounts leaves alone
abbrev pub identity : Account → ℕ × Text × Option Text × Text
identity row = (row.id, row.email, row.credentials, row.sync_status)

-- what `set_active` writes in one row
chosen : ℕ → ℕ → Account → Account
chosen now a row =
    if has_id a row
    then record row { is_active = true; updated_at = now }
    else if active row
    then record row { is_active = false }
    else row

activate_only-map :
    (now a : ℕ) (rows : List Account) → activate_only now a rows ≡ map (chosen now a) rows
unfolding activate_only update_where chosen
activate_only-map now a [] = refl
activate_only-map now a (x ∷ xs) = ground (arith, activate_only-map now a xs)

chosen_active : (now a : ℕ) (row : Account) → (chosen now a row).is_active ≡ has_id a row
unfolding chosen
chosen_active now a row = ground arith

identity-chosen : (now a : ℕ) (row : Account) → identity (chosen now a row) ≡ identity row
unfolding chosen
identity-chosen now a row = ground arith

map-chosen :
    (now a : ℕ) (rows : List Account)
    → All (λ row. row.is_active ≡ has_id a row) (map (chosen now a) rows)
      × (map identity (map (chosen now a) rows) ≡ map identity rows)
map-chosen now a [] = (tt, refl)
map-chosen now a (x ∷ xs) =
    let (only, same) = map-chosen now a xs in
    (
      (chosen_active now a x ∙ sym (ap (λ t. t.0 == a) (identity-chosen now a x)), only),
      ap₂ (λ h t. h ∷ t) (identity-chosen now a x) same,
    )

attempt_result :
    (faults : List Bool) (db : Db) (f : Db → Db)
    → ((attempt faults db (λ d. (tt, f d))).0 ≡ ok tt)
        × ((attempt faults db (λ d. (tt, f d))).1.db ≡ f db)
      ⊎ ((attempt faults db (λ d. (tt, f d))).0 ≡ err sqlite)
        × ((attempt faults db (λ d. (tt, f d))).1.db ≡ db)
unfolding attempt
attempt_result [] db f = inl (refl, refl)
attempt_result (true ∷ rest) db f = inr (refl, refl)
attempt_result (false ∷ rest) db f = inl (refl, refl)

execute_result :
    (f : Db → Db) (s : Store)
    → ((execute f s).0 ≡ ok tt) × ((execute f s).1.db ≡ f s.db)
      ⊎ ((execute f s).0 ≡ err sqlite) × ((execute f s).1.db ≡ s.db)
unfolding execute
execute_result f s = attempt_result s.faults s.db f

-- Selecting an account is all or nothing. Either it succeeds, and a row is active exactly when it is
-- that account's, with no row lost, renamed or given other credentials; or it fails and the accounts
-- are as they were.
pub set_active_selects :
    (a : ℕ) (s : Store)
    → (((set_active a s).0 ≡ ok tt)
        × All (λ row. row.is_active ≡ has_id a row) (set_active a s).1.db.accounts
        × (map identity (set_active a s).1.db.accounts ≡ map identity s.db.accounts))
      ⊎ (((set_active a s).0 ≡ err sqlite) × ((set_active a s).1.db.accounts ≡ s.db.accounts))
unfolding set_active
set_active_selects a s =
    elim (execute_result (λ db. record db { accounts = activate_only db.clock a db.accounts }) s) [
      | inl (done, e) ↦
          let (only, same) = map-chosen s.db.clock a s.db.accounts in
          let rows = ap (λ db. db.accounts) e ∙ activate_only-map s.db.clock a s.db.accounts in
          inl (
            done,
            subst (All (λ row. row.is_active ≡ has_id a row)) (sym rows) only,
            ap (map identity) rows ∙ same,
          )
      | inr (failed, e) ↦ inr (failed, ap (λ db. db.accounts) e)
    ]

first_of_two_cases :
    (row : Account) (o : Option Account)
    → (first_of_two row o ≡ row) ⊎ (o ≡ some (first_of_two row o))
first_of_two_cases row none = inl refl
first_of_two_cases row (some best) = elim (Bool-cases (comes_first row best)) [
  | inl e ↦ inl (rw e)
  | inr e ↦ inr (rw e)
]

-- the row that `newest` chooses is one of the rows
newest_mem :
    (rows : List Account) (row : Account) → newest rows ≡ some row → any (has_id row.id) rows ≡ true
unfolding newest any
newest_mem [] row h = cc
newest_mem (x ∷ xs) row h = elim (first_of_two_cases x (newest xs)) [
  | inl e ↦
      let it : x ≡ row = sym e ∙ some-injective (first_of_two x (newest xs)) row h in
      ground (arith, ap (λ r. r.id) it)
  | inr e ↦ ground (arith, newest_mem xs row (e ∙ h))
]

any-active-update :
    (p : Account → Bool) (rows : List Account)
    → any p rows ≡ true
    → any active (update_where p (λ r. record r { is_active = true }) rows) ≡ true
unfolding any update_where
any-active-update p [] h = cc
any-active-update p (x ∷ xs) h = ground (arith, any-active-update p xs)

count_active-update :
    (id : ℕ) (rows : List Account)
    → any active rows ≡ false
    → length (filter active (update_where (has_id id) (λ r. record r { is_active = true }) rows))
      ≡ length (filter (has_id id) rows)
unfolding any filter update_where
count_active-update id [] h = refl
count_active-update id (x ∷ xs) h = ground (arith, count_active-update id xs)

repair_active-active :
    (row : Account) (rows : List Account) → any active (repair_active (row ∷ rows)) ≡ true
unfolding repair_active newest
repair_active-active row rows =
    let best = first_of_two row (newest rows) in
    elim (Bool-cases (any active (row ∷ rows))) [
      | inl on ↦ rw on on
      | inr off ↦
          rw off
            (any-active-update (has_id best.id) (row ∷ rows) (newest_mem (row ∷ rows) best refl))
    ]

repair_active_idle : (rows : List Account) → any active rows ≡ true → repair_active rows ≡ rows
unfolding repair_active
repair_active_idle rows on = rw on

repair_active_few :
    (row : Account) (rows : List Account)
    → ((id : ℕ) → length (filter (has_id id) (row ∷ rows)) ≤ 1)
    → length (filter active (row ∷ rows)) ≤ 1
    → length (filter active (repair_active (row ∷ rows))) ≤ 1
unfolding repair_active newest
repair_active_few row rows distinct one =
    let best = first_of_two row (newest rows) in
    elim (Bool-cases (any active (row ∷ rows))) [
      | inl on ↦ rw on one
      | inr off ↦ rw off (rw (count_active-update best.id (row ∷ rows) off) (distinct best.id))
    ]

some_active : (rows : List Account) → any active rows ≡ true → 1 ≤ length (filter active rows)
unfolding any filter
some_active [] h = cc
some_active (x ∷ xs) h = ground (arith, some_active xs)

-- Repairing the selection of a store that has an account, accounts with distinct ids of which one at
-- most is active, leaves exactly one active; repairing again then changes nothing.
pub repair_active_selects :
    (row : Account) (rows : List Account)
    → ((id : ℕ) → length (filter (has_id id) (row ∷ rows)) ≤ 1)
    → length (filter active (row ∷ rows)) ≤ 1
    → (length (filter active (repair_active (row ∷ rows))) ≡ 1)
      × (repair_active (repair_active (row ∷ rows)) ≡ repair_active (row ∷ rows))
repair_active_selects row rows distinct one =
    let on = repair_active-active row rows in
    (
      omega (
        arith,
        repair_active_few row rows distinct one,
        some_active (repair_active (row ∷ rows)) on,
      ),
      repair_active_idle (repair_active (row ∷ rows)) on,
    )
