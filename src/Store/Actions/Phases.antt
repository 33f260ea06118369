-- ===== src/Store/Actions/Phases.antt =====
-- How a claimed send ends: `complete_send`, `fail_send`, and the take-over of an expired claim.
use lagoon_email.Prelude.{
  ℕ, ◌+◌, ◌-◌, ◌≤◌, ◌<◌, Text, text_eq, ◌≡◌, refl, ◌∙◌, ap, Bool, true, Option, some, List, [], ◌∷◌,
  ok, ltb, arith, any, find, Bool-cases, inl, inr, false,
}
use lagoon_email.Store.Table.{Action, Db, statement, ◌>>=◌, execute, update_where}
use lagoon_email.Store.Rows.{find-update_where}
use lagoon_email.Store.Actions.{
  claimed, in_flight, completed, failed_with, pending, send_claim_lease_ms, is_request, claim_send,
  resolve_row, resolve_pending, take_over, complete_send, fail_send, still_claimed, set_claim,
  with_id,
}
use lagoon_email.Store.Actions.Claim.{steady, request_row, claim_send_held, resolve_fresh}

-- an update of the row of one id changes the row of a request if it is that row
request_row-update :
    (a : ℕ) (q : Text) (p : Action → Bool) (f : Action → Action) (rows : List Action) (row : Action)
    → ((x : Action) → is_request a q (f x) ≡ is_request a q x)
    → find (is_request a q) rows ≡ some row
    → p row ≡ true
    → find (is_request a q) (update_where p f rows) ≡ some (f row)
request_row-update a q p f rows row same held it =
    find-update_where (is_request a q) p f rows same ∙ rw (held, it)

any_of_find :
    {A : Type 0} (p k : A → Bool) (xs : List A) (x : A)
    → find p xs ≡ some x
    → k x ≡ true
    → any k xs ≡ true
unfolding find any
any_of_find p k [] x h e = cc
any_of_find p k (y ∷ ys) x h e = ground (arith, any_of_find p k ys x)

-- an update after which no row fits its WHERE any more
none_left :
    {A : Type 0} (p : A → Bool) (f : A → A) (xs : List A)
    → ((x : A) → p (f x) ≡ false)
    → any p (update_where p f xs) ≡ false
unfolding any update_where
none_left p f [] h = refl
none_left p f (x ∷ xs) h = elim (Bool-cases (p x)) [
  | inl it ↦ rw (update_where, it) (rw (any, h x) (none_left p f xs h))
  | inr other ↦ rw (update_where, other) (rw (any, other) (none_left p f xs h))
]

-- an update whose WHERE finds no row changes nothing
unmatched :
    {A : Type 0} (p : A → Bool) (f : A → A) (xs : List A)
    → any p xs ≡ false
    → update_where p f xs ≡ xs
unfolding any update_where
unmatched p f [] h = refl
unmatched p f (x ∷ xs) h = elim (Bool-cases (p x)) [
  | inl it ↦ ground (arith, h, it)
  | inr other ↦
      rw (update_where, other) (ap (λ rest. x ∷ rest) (unmatched p f xs (ground (arith, h))))
]

module _ (now a : ℕ) (q : Text) (db : Db) (row : Action)
    (held : request_row a q db ≡ some row) where
  -- After a send is completed, every later claim of its request id replays the provider's id and
  -- changes nothing: the mail is never sent a second time.
  pub complete_send-claim_send :
      (provider_id replied_to : Option Text)
      → claim_send now a q (complete_send row.id provider_id replied_to (steady db)).1
        ≡ (ok (completed provider_id), (complete_send row.id provider_id replied_to (steady db)).1)
  unfolding complete_send execute is_request
  complete_send-claim_send provider_id replied_to =
      claim_send_held now a q _ _
        (request_row-update a q (with_id row.id) _ db.actions row (λ x. refl) held (ground arith))
      ∙ unfold resolve_row text_eq in refl

  -- After a send has failed, every later claim of its request id replays the error code and changes
  -- nothing.
  pub fail_send-claim_send :
      (code : Text)
      → claim_send now a q (fail_send row.id code (steady db)).1
        ≡ (ok (failed_with code), (fail_send row.id code (steady db)).1)
  unfolding fail_send execute is_request
  fail_send-claim_send code =
      claim_send_held now a q _ _
        (request_row-update a q (with_id row.id) _ db.actions row (λ x. refl) held (ground arith))
      ∙ unfold resolve_row text_eq in refl

  still_claimed_row :
      (at : ℕ)
      → row.payload.status ≡ some pending
      → row.payload.claimed_at ≡ some at
      → still_claimed row.id (some at) row ≡ true
  unfolding text_eq
  still_claimed_row at status claim = rw (status, claim) (ground arith)

  resolve_stale :
      (at : ℕ)
      → row.payload.status ≡ some pending
      → row.payload.claimed_at ≡ some at
      → at + send_claim_lease_ms < now
      → any (still_claimed row.id (some at)) db.actions ≡ true
      → resolve_row now row (steady db) ≡ (
        ok (claimed row.id),
        steady (record db {
          actions = update_where (still_claimed row.id (some at)) (set_claim now) db.actions;
        }),
      )
  unfolding resolve_row resolve_pending take_over statement ◌>>=◌ text_eq
  resolve_stale at status claim stale there =
      let late : ltb send_claim_lease_ms (now - at) ≡ true = ground arith in
      rw (status, claim, late, there)

  not_again :
      (new at : ℕ) (x : Action)
      → at < new
      → still_claimed row.id (some at) (set_claim new x) ≡ false
  unfolding text_eq
  not_again new at x late = ground (arith, late)

  -- a request that read the claim before it was taken over
  resolve_late :
      (at rival : ℕ) (db' : Db)
      → row.payload.status ≡ some pending
      → row.payload.claimed_at ≡ some at
      → any (still_claimed row.id (some at)) db'.actions ≡ false
      → resolve_row rival row (steady db') ≡ (ok in_flight, steady db')
  unfolding resolve_row resolve_pending take_over statement ◌>>=◌ text_eq
  resolve_late at rival db' status claim gone =
      elim (Bool-cases (ltb send_claim_lease_ms (rival - at))) [
        | inl stale ↦
            rw (status, claim, stale, gone)
              (ap (λ rows. (ok in_flight, steady (record db' { actions = rows })))
                (unmatched _ _ db'.actions gone))
        | inr fresh ↦ rw (status, claim, fresh) refl
      ]

  -- On a store whose statements do not fail: a claim whose request has not been heard of for longer than
  -- the lease is taken over by the next request, and by that one only. A claim within the new lease is
  -- told that the send is in flight, and so is a request that had read the old claim before the take-over
  -- and decides behind it, at any time.
  pub claim_send-take_over :
      (at later rival : ℕ)
      → row.payload.status ≡ some pending
      → row.payload.claimed_at ≡ some at
      → at + send_claim_lease_ms < now
      → later ≤ now + send_claim_lease_ms
      → ((claim_send now a q (steady db)).0 ≡ ok (claimed row.id))
        × (claim_send later a q (claim_send now a q (steady db)).1
            ≡ (ok in_flight, (claim_send now a q (steady db)).1))
        × (resolve_row rival row (claim_send now a q (steady db)).1
            ≡ (ok in_flight, (claim_send now a q (steady db)).1))
  claim_send-take_over at later rival status claim stale fresh =
      let mine = still_claimed_row at status claim in
      let first =
        claim_send_held now a q db row held
        ∙ resolve_stale at status claim stale (any_of_find _ _ db.actions row held mine) in
      (
        ap (λ p. p.0) first,
        rw first (
            claim_send_held later a q _ _ (
              request_row-update a q (still_claimed row.id (some at)) (set_claim now) db.actions row
                (λ x. unfold is_request in refl) held mine)
            ∙ resolve_fresh later now (set_claim now row) _ refl refl fresh),
        rw first (
            resolve_late at rival _ status claim
              (none_left _ _ db.actions (λ x. not_again now at x (omega (arith, stale))))),
      )
