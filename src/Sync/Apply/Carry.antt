-- ===== src/Sync/Apply/Carry.antt =====
-- What an invariant of `message_headers` needs to survive `apply`: one condition for each statement
-- that changes the table.
use lagoon_email.Prelude.{
  ◌==◌, ℕ, Text, text_eq_iff, ◌≡◌, refl, Bool, true, false, not, ◌&&◌, Option, none, some, List, [],
  ◌∷◌, ◌++◌, ℤ, arith, map, All, filter, contains, Bool-cases, inl, inr,
}
use lagoon_email.Store.Table.{Header, Payload, SyncState, Db, update_where}
use lagoon_email.Store.Headers.{
  NewHeader, BodyKey, keyed, is_live, in_inbox, uid_differs, seal_snippet, insert_or_update,
  upsert_header, live_remote_ids, delete_live_rows, set_remote_uid, fill_remote_uids, reconcile_row,
  reconcile_inbox,
}
use lagoon_email.Store.Accounts.{update_sync_state, update_health, update_accounts}
use lagoon_email.Store.Actions.Recorded.{Keeps-record_action}
use lagoon_email.Store.Actions.{record_action, replied_remote_ids}
use lagoon_email.Store.Keeps.{
  Keeps, Keeps-pure, Keeps-query, Keeps-execute, Keeps-bind, Keeps-bind-Yields, Keeps-for_each,
  Keeps-for_each-All, Keeps-ignore, Yields, Yields-query, Yields-pure, Yields-map, keeps_rules,
}
use lagoon_email.Sync.ChangeSet.{MailChangeSet}
use lagoon_email.Sync.Apply.{
  apply, land, advance, reset_stage, fill_stage, reconcile_stage, replies_stage, removed_rows,
  record_reply, known_replies, new_header,
}

-- What a pull says may be deleted: with both other memberships known, what none of the three
-- folders holds; otherwise what the provider itself reports as removed.
abbrev pub Removable :
    List Text → Option (List Text) → Option (List Text) → List Text → Text → Type 0
Removable inbox (some archived) (some trashed) reported r =
    contains (inbox ++ (archived ++ trashed)) r ≡ false
Removable inbox none trashed reported r = contains reported r ≡ true
Removable inbox (some archived) none reported r = contains reported r ≡ true

abbrev pub MayDelete : MailChangeSet → List Text → Text → Type 0
MayDelete changes inbox =
    Removable inbox changes.archived_remote_ids changes.trashed_remote_ids
      changes.removed_remote_ids

pub record Carried (a : ℕ) (changes : MailChangeSet) (Q : Text → Type 0) (P : List Header → Type 0)
    : Type 0 where
  pub wipe :
      changes.reset_required ≡ true
      → (rows : List Header) → P rows
      → P (filter (λ h. not (is_live a h)) rows)
  pub upsert :
      (new : NewHeader) (snippet : Option Text)
      → new.account_id ≡ a
      → (rows : List Header) → P rows
      → P (insert_or_update new snippet rows)
  pub move_uid :
      (r : Text) (uid : ℤ) (rows : List Header)
      → P rows
      → P (
          update_where
            (λ h. keyed a r h && (in_inbox a h && uid_differs uid h.remote_uid))
            (λ h. record h { remote_uid = some uid })
            rows)
  pub live :
      (rows : List Header) → P rows → All Q (map (λ h. h.remote_id) (filter (is_live a) rows))
  pub archive :
      (r : Text)
      → Q r
      → (rows : List Header) → P rows
      → P (update_where (keyed a r) (λ h. record h { is_archived = true }) rows)
  pub trash :
      (r : Text)
      → Q r
      → (rows : List Header) → P rows
      → P (update_where (keyed a r) (λ h. record h { is_deleted = true }) rows)
  pub delete :
      (r : Text)
      → Q r
      → (inbox : List Text) → changes.inbox_remote_ids ≡ some inbox
      → MayDelete changes inbox r
      → (rows : List Header) → P rows
      → P (filter (λ h. not (keyed a r h)) rows)

-- What a filtered list contains, the filter's test accepts.
contains-filter :
    (p : Text → Bool) (xs : List Text) (r : Text) → contains (filter p xs) r ≡ true → p r ≡ true
unfolding contains filter
contains-filter p [] r h = cc
contains-filter p (x ∷ xs) r h = ground (arith, contains-filter p xs r, text_eq_iff x r)

not-true : (b : Bool) → not b ≡ true → b ≡ false
not-true true h = cc
not-true false h = refl

module _ (P : List Header → Type 0) where
  abbrev pub OfHeaders : Db → Type 0
  OfHeaders db = P db.headers

  seal_snippet-Keeps :
      (o : Option Text) (key : Option BodyKey) → Keeps OfHeaders (seal_snippet o key)
  unfolding seal_snippet
  seal_snippet-Keeps none key = search keeps_rules
  seal_snippet-Keeps (some t) none = search keeps_rules
  seal_snippet-Keeps (some t) (some seal) = search keeps_rules

  update_accounts-Keeps :
      (a : ℕ) (st : SyncState) (x : Text) (at e : Option Text)
      → Keeps OfHeaders (update_sync_state a st x at e)
  unfolding update_sync_state update_accounts
  update_accounts-Keeps a st x at e = Keeps-execute _ (λ db h. h)

  update_health-Keeps :
      (a : ℕ) (x : Text) (at e : Option Text) → Keeps OfHeaders (update_health a x at e)
  unfolding update_health update_accounts
  update_health-Keeps a x at e = Keeps-execute _ (λ db h. h)

  record_action-Keeps :
      (a : ℕ) (kind : Text) (payload : Payload) → Keeps OfHeaders (record_action a kind payload)
  record_action-Keeps a kind payload = Keeps-record_action a kind payload (λ db h. h)

  record_reply-Keeps :
      (a : ℕ) (known : List Text) (m : Text) → Keeps OfHeaders (record_reply a known m)
  unfolding record_reply
  record_reply-Keeps a known m = elim (Bool-cases (contains known m)) [
    | inl seen ↦ rw seen (Keeps-pure tt)
    | inr fresh ↦ rw fresh (Keeps-ignore _ (record_action-Keeps a _ _))
  ]

  known_replies-Keeps : (a : ℕ) → Keeps OfHeaders (known_replies a)
  unfolding known_replies replied_remote_ids
  known_replies-Keeps a = record { at = λ s h. (Keeps-query {P = OfHeaders} _).at s h }

  replies_stage-Keeps : (a : ℕ) (ids : List Text) → Keeps OfHeaders (replies_stage a ids)
  unfolding replies_stage
  replies_stage-Keeps a [] = Keeps-pure tt
  replies_stage-Keeps a (r ∷ rs) =
      Keeps-bind _ _ (known_replies-Keeps a)
        (λ known. Keeps-for_each (r ∷ rs) _ (record_reply-Keeps a known))

  advance-Keeps :
      (a : ℕ) (now : Text) (changes : MailChangeSet) (previous : SyncState)
      → Keeps OfHeaders (advance a now changes previous)
  unfolding advance
  advance-Keeps a now changes previous =
      Keeps-bind _ _ (update_accounts-Keeps a _ _ _ _) (λ _. update_health-Keeps a _ _ _)

module _ {a : ℕ} {changes : MailChangeSet} {Q : Text → Type 0} {P : List Header → Type 0}
    (c : Carried a changes Q P) where
  reset_stage-Keeps :
      (b : Bool)
      → (b ≡ true → changes.reset_required ≡ true)
      → Keeps (OfHeaders P) (reset_stage a b)
  unfolding reset_stage delete_live_rows
  reset_stage-Keeps true asked = Keeps-execute _ (λ db h. c.wipe (asked refl) db.headers h)
  reset_stage-Keeps false asked = Keeps-pure tt

  upsert_header-Keeps :
      (new : NewHeader) (key : Option BodyKey)
      → new.account_id ≡ a
      → Keeps (OfHeaders P) (upsert_header new key)
  unfolding upsert_header
  upsert_header-Keeps new key e =
      Keeps-bind _ _ (seal_snippet-Keeps P new.snippet key)
        (λ snippet. Keeps-execute _ (λ db h. c.upsert new snippet e db.headers h))

  set_remote_uid-Keeps : (p : Text × ℤ) → Keeps (OfHeaders P) (set_remote_uid a p)
  unfolding set_remote_uid
  set_remote_uid-Keeps (r, uid) = Keeps-execute _ (λ db h. c.move_uid r uid db.headers h)

  fill_remote_uids-Keeps : (uids : List (Text × ℤ)) → Keeps (OfHeaders P) (fill_remote_uids a uids)
  unfolding fill_remote_uids
  fill_remote_uids-Keeps uids = Keeps-bind _ _ (Keeps-query _) (λ missing.
      elim (Bool-cases (missing == 0)) [
        | inl done ↦ rw done (Keeps-pure tt)
        | inr more ↦ rw more (Keeps-for_each uids _ set_remote_uid-Keeps)
      ])

  fill_stage-Keeps : (o : Option (List (Text × ℤ))) → Keeps (OfHeaders P) (fill_stage a o)
  unfolding fill_stage
  fill_stage-Keeps none = Keeps-pure tt
  fill_stage-Keeps (some uids) = fill_remote_uids-Keeps uids

  live_remote_ids-Yields : Yields (OfHeaders P) (All Q) (live_remote_ids a)
  unfolding live_remote_ids
  live_remote_ids-Yields = Yields-query (All Q) _ (λ db h. c.live db.headers h)

  module _ (inbox : List Text) (known : changes.inbox_remote_ids ≡ some inbox) where
    reconcile_row-Keeps :
        (archived trashed removed : List Text)
        → ((r : Text) → contains removed r ≡ true → MayDelete changes inbox r)
        → (r : Text) → Q r
        → Keeps (OfHeaders P) (reconcile_row a inbox archived trashed removed r)
    unfolding reconcile_row
    reconcile_row-Keeps archived trashed removed may r q = elim (Bool-cases (contains inbox r)) [
      | inl kept ↦ rw kept (Keeps-pure tt)
      | inr left ↦ rw left (elim (Bool-cases (contains archived r)) [
        | inl e ↦ rw e (Keeps-execute _ (λ db h. c.archive r q db.headers h))
        | inr ne ↦ rw ne (elim (Bool-cases (contains trashed r)) [
          | inl e ↦ rw e (Keeps-execute _ (λ db h. c.trash r q db.headers h))
          | inr nt ↦ rw nt (elim (Bool-cases (contains removed r)) [
            | inl e ↦
                rw e (Keeps-execute _ (λ db h. c.delete r q inbox known (may r e) db.headers h))
            | inr nr ↦ rw nr (Keeps-pure tt)
          ])
        ])
      ])
    ]

    reconcile_inbox-Keeps :
        (archived trashed removed : List Text)
        → ((r : Text) → contains removed r ≡ true → MayDelete changes inbox r)
        → Keeps (OfHeaders P) (reconcile_inbox a inbox archived trashed removed)
    unfolding reconcile_inbox
    reconcile_inbox-Keeps archived trashed removed may =
        Keeps-bind-Yields _ _ live_remote_ids-Yields (λ local all.
          Keeps-for_each-All Q local _ all (reconcile_row-Keeps archived trashed removed may))

  module _ (inbox reported : List Text) where
    removed_rows-Yields :
        (archived trashed : Option (List Text))
        → Yields
            (OfHeaders P)
            (λ removed.
              (r : Text) → contains removed r ≡ true → Removable inbox archived trashed reported r)
            (removed_rows a inbox archived trashed reported)
    unfolding removed_rows live_remote_ids
    removed_rows-Yields none trashed = Yields-pure _ reported (λ r e. e)
    removed_rows-Yields (some archived) none = Yields-pure _ reported (λ r e. e)
    removed_rows-Yields (some archived) (some trashed) = Yields-map _ _ _ (λ live r e.
        not-true _
          (contains-filter (λ t. not (contains (inbox ++ (archived ++ trashed)) t)) live r e))

  reconcile_stage-Keeps :
      (o : Option (List Text))
      → changes.inbox_remote_ids ≡ o
      → Keeps (OfHeaders P) (reconcile_stage a changes o)
  unfolding reconcile_stage
  reconcile_stage-Keeps none e = Keeps-pure tt
  reconcile_stage-Keeps (some inbox) e =
      Keeps-bind-Yields _ _ (removed_rows-Yields inbox _ _ _)
        (λ removed may. reconcile_inbox-Keeps inbox e _ _ removed may)

  land-Keeps : (key : Option BodyKey) → Keeps (OfHeaders P) (land a key changes)
  unfolding land new_header
  land-Keeps key = Keeps-bind _ _ (reset_stage-Keeps changes.reset_required (λ e. e)) (λ _.
      Keeps-bind _ _
        (Keeps-for_each changes.upserts _ (λ h. upsert_header-Keeps (new_header a h) key refl))
        (λ _. Keeps-bind _ _ (fill_stage-Keeps changes.inbox_uids) (λ _.
          Keeps-bind _ _ (reconcile_stage-Keeps changes.inbox_remote_ids refl)
            (λ _. replies_stage-Keeps P a changes.replied_message_ids))))

  -- Every invariant that is carried survives `apply`, whichever statement fails.
  pub apply-Keeps :
      (key : Option BodyKey) (now : Text) (previous : SyncState)
      → Keeps (OfHeaders P) (apply a key now changes previous)
  unfolding apply
  apply-Keeps key now previous =
      Keeps-bind _ _ (land-Keeps key) (λ _. advance-Keeps P a now changes previous)
