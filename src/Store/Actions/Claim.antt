-- ===== src/Store/Actions/Claim.antt =====
-- `claim_send`, `complete_send` and `fail_send` of crates/lagoon-api/src/store/write.rs as the life
-- of one request id, on a store whose statements do not fail.
use lagoon_email.Prelude.{
  ℕ, ◌+◌, ◌≤◌, Text, text_eq, text_eq_refl, ◌≡◌, refl, ◌∙◌, ap, Bool, true, false, Option, none,
  some, List, [], ◌∷◌, ok, arith, any, find,
}
use lagoon_email.Store.Table.{Action, Db, Store, statement, ◌>>=◌, query}
use lagoon_email.Store.Accounts.{has_id}
use lagoon_email.Store.Rows.{find_last}
use lagoon_email.Store.Actions.{
  claimed, in_flight, pending, send_kind, send_claim_lease_ms, is_request, claim_payload,
  append_action, claim_send, try_claim, after_insert, resolve_claim, resolve_row, resolve_pending,
}

-- a store at `db` whose statements do not fail
abbrev pub steady : Db → Store
steady db = record { db = db; faults = [] }

abbrev pub request_row : ℕ → Text → Db → Option Action
request_row a q db = find (is_request a q) db.actions

module _ {A : Type 0} (p : A → Bool) where
  find-none : (xs : List A) → find p xs ≡ none → any p xs ≡ false
  unfolding find any
  find-none [] h = refl
  find-none (x ∷ xs) h = ground (arith, find-none xs)

  pub find-some : (xs : List A) (x : A) → find p xs ≡ some x → (any p xs ≡ true) × (p x ≡ true)
  unfolding find any
  find-some [] x h = cc
  find-some (y ∷ ys) x h = ground (arith, find-some ys x)

abbrev pub new_claim : ℕ → Text → ℕ → Db → Action
new_claim a q now db = record {
  id = db.next_id;
  account_id = a;
  kind = send_kind;
  payload = claim_payload q now;
}

-- A request id that no row holds is claimed by a new row.
pub claim_send_fresh :
    (now a : ℕ) (q : Text) (db : Db)
    → request_row a q db ≡ none
    → any (has_id a) db.accounts ≡ true
    → claim_send now a q (steady db)
      ≡ (ok (claimed db.next_id), steady (append_action a send_kind (claim_payload q now) db))
unfolding claim_send statement ◌>>=◌ try_claim after_insert
claim_send_fresh now a q db absent known = rw (find-none _ db.actions absent, known)

try_claim_held :
    (now a : ℕ) (q : Text) (db : Db) (row : Action)
    → request_row a q db ≡ some row
    → try_claim a q now db ≡ (none, db)
unfolding try_claim
try_claim_held now a q db row held = rw ((find-some _ db.actions row held).0)

pub claim_send_held :
    (now a : ℕ) (q : Text) (db : Db) (row : Action)
    → request_row a q db ≡ some row
    → claim_send now a q (steady db) ≡ resolve_row now row (steady db)
unfolding claim_send statement query ◌>>=◌ try_claim after_insert resolve_claim
claim_send_held now a q db row held =
    rw (try_claim_held now a q db row held) (rw (held, resolve_claim))

pub request_row_fresh :
    (now a : ℕ) (q : Text) (db : Db)
    → request_row a q db ≡ none
    → request_row a q (append_action a send_kind (claim_payload q now) db)
      ≡ some (new_claim a q now db)
unfolding is_request
request_row_fresh now a q db absent =
    rw (find_last (is_request a q), absent) (ground (arith, text_eq_refl q, text_eq_refl send_kind))

pub resolve_fresh :
    (later at : ℕ) (row : Action) (db : Db)
    → row.payload.status ≡ some pending
    → row.payload.claimed_at ≡ some at
    → later ≤ at + send_claim_lease_ms
    → resolve_row later row (steady db) ≡ (ok in_flight, steady db)
unfolding resolve_row resolve_pending text_eq
resolve_fresh later at row db status claim fresh = rw (status, claim) (ground arith)

-- One request id, one sender: after a request has claimed its id, any further claim within the lease
-- is told that the send is in flight, and changes nothing.
pub claim_send-claim_send :
    (now later a : ℕ) (q : Text) (db : Db)
    → request_row a q db ≡ none
    → any (has_id a) db.accounts ≡ true
    → later ≤ now + send_claim_lease_ms
    → ((claim_send now a q (steady db)).0 ≡ ok (claimed db.next_id))
      × (claim_send later a q (claim_send now a q (steady db)).1
          ≡ (ok in_flight, (claim_send now a q (steady db)).1))
claim_send-claim_send now later a q db absent known fresh =
    let first = claim_send_fresh now a q db absent known in
    (
      ap (λ p. p.0) first,
      rw first (
          claim_send_held later a q _ _ (request_row_fresh now a q db absent)
          ∙ resolve_fresh later now (new_claim a q now db) _ refl refl fresh),
    )
