-- ===== src/Imap/Membership/Complete.antt =====
-- A folder that is known is known completely.
use lagoon_email.Prelude.{
  ℕ, ◌≤◌, ◌≡◌, refl, ap, sym, ◌∙◌, subst, ◌⊎◌, inl, inr, Text, text_eq_refl, Bool, true, false,
  Option, none, some, List, [], ◌∷◌, Result, ok, err, ℤ, int_eq, int_eq_iff, ltb, arith, all,
  contains, length, Bool-cases, if◌then◌else◌,
}
use lagoon_email.Mail.Error.{MailError}
use lagoon_email.Imap.Membership.{
  ImapSelected, ImapFetchedHeader, FolderMembership, Peer, has_uid, remote_id_of, Gathered,
  gather_one, gather, empty_gathered, if_complete, of_headers, of_uids, of_selected, collect_folder,
}

-- the header is one of those that were fetched
abbrev pub Listed : List ImapFetchedHeader → ImapFetchedHeader → Type 0
Listed [] h = ⊥
Listed (x ∷ xs) h = (x ≡ h) ⊎ Listed xs h

-- Among the fetched headers there is one of this UID, and its id is among the ids.
abbrev pub Identified : Peer → List ImapFetchedHeader → List Text → ℤ → Type 0
Identified peer fetched ids u =
    (h : ImapFetchedHeader) × Listed fetched h
    × (h.uid ≡ u)
    × (contains ids (remote_id_of peer h) ≡ true)

module _ (peer : Peer) (uids : List ℤ) (fetched : List ImapFetchedHeader) where
  abbrev Covered : Gathered → Type 0
  Covered g = (u : ℤ) → has_uid g.seen u ≡ true → Identified peer fetched g.remote_ids u

  contains_more :
      (t q : Text) (ids : List Text) → contains ids t ≡ true → contains (q ∷ ids) t ≡ true
  unfolding contains
  contains_more t q ids h = ground arith

  contains_first : (t : Text) (ids : List Text) → contains (t ∷ ids) t ≡ true
  unfolding contains
  contains_first t ids = rw (text_eq_refl t) refl

  has_uid_cases :
      (x u : ℤ) (xs : List ℤ) → has_uid (x ∷ xs) u ≡ true → (x ≡ u) ⊎ (has_uid xs u ≡ true)
  unfolding has_uid
  has_uid_cases x u xs h = elim (Bool-cases (int_eq x u)) [
    | inl e ↦ inl ((int_eq_iff x u).0 e)
    | inr e ↦ inr (ground arith)
  ]

  gather_one-Covered :
      (h : ImapFetchedHeader) (g : Gathered)
      → Listed fetched h
      → Covered g
      → Covered (gather_one peer uids h g)
  unfolding gather_one
  gather_one-Covered h g listed covered = elim (Bool-cases (has_uid uids h.uid)) [
    | inl known ↦ simp known (λ u seen. elim (has_uid_cases h.uid u g.seen seen) [
      | inl here ↦ (h, listed, here, contains_first (remote_id_of peer h) g.remote_ids)
      | inr there ↦
          let (k, among, same, held) = covered u there in
          (k, among, same, contains_more _ (remote_id_of peer h) g.remote_ids held)
    ])
    | inr alien ↦ simp alien covered
  ]

  gather-Covered :
      (hs : List ImapFetchedHeader) (g : Gathered)
      → ((h : ImapFetchedHeader) → Listed hs h → Listed fetched h)
      → Covered g
      → Covered (gather peer uids hs g)
  unfolding gather
  gather-Covered [] g among covered = covered
  gather-Covered (h ∷ hs) g among covered =
      gather-Covered hs (gather_one peer uids h g) (λ k l. among k (inr l))
        (gather_one-Covered h g (among h (inl refl)) covered)

  start-Covered : Covered empty_gathered
  unfolding has_uid
  start-Covered u seen = cc

all-has_uid :
    (p : ℤ → Bool) (uids : List ℤ) (u : ℤ) → all p uids ≡ true → has_uid uids u ≡ true → p u ≡ true
unfolding all has_uid
all-has_uid p [] u h k = cc
all-has_uid p (x ∷ xs) u h k = elim (Bool-cases (int_eq x u)) [
  | inl e ↦ subst (λ v. p v ≡ true) ((int_eq_iff x u).0 e) (ground arith)
  | inr e ↦ all-has_uid p xs u (ground arith) (ground arith)
]

none_not_some :
    (m : FolderMembership)
    → ◌≡◌ {A = Result MailError (Option FolderMembership)} (ok none) (ok (some m))
    → ⊥
none_not_some m e = cc

same_membership :
    (n m : FolderMembership)
    → ◌≡◌ {A = Result MailError (Option FolderMembership)} (ok (some n)) (ok (some m))
    → n ≡ m
same_membership n m e = cc

if_complete-some :
    (uids : List ℤ) (g : Gathered) (m : FolderMembership) (u : ℤ)
    → ◌≡◌ {A = Result MailError (Option FolderMembership)} (ok (if_complete uids g)) (ok (some m))
    → has_uid uids u ≡ true
    → (g.remote_ids ≡ m.remote_ids) × (has_uid g.seen u ≡ true)
unfolding if_complete
if_complete-some uids g m u e k = elim (Bool-cases (all (has_uid g.seen) uids)) [
  | inl whole ↦ (
    ap (λ n. n.remote_ids) (same_membership _ m (sym (ap (λ o. ok o) (complete_known whole)) ∙ e)),
    all-has_uid (has_uid g.seen) uids u whole k,
  )
  | inr part ↦ absurd (none_not_some m (sym (ap (λ o. ok o) (incomplete_unknown part)) ∙ e))
]
  where
    complete_known :
        all (has_uid g.seen) uids ≡ true
        → if_complete uids g
          ≡ some (record {
            uids = uids;
            remote_ids = g.remote_ids;
            uid_by_remote_id = g.uid_by_remote_id;
          })
    complete_known h = rw (if_complete, h) refl

    incomplete_unknown : all (has_uid g.seen) uids ≡ false → if_complete uids g ≡ none
    incomplete_unknown h = rw (if_complete, h) refl

of_uids_known :
    (peer : Peer) (folder : Text) (budget : ℕ) (uids : List ℤ) (fetched : List ImapFetchedHeader)
    (m : FolderMembership) (u : ℤ)
    → peer.headers folder uids ≡ ok fetched
    → of_uids peer folder budget (ok uids) ≡ ok (some m)
    → has_uid uids u ≡ true
    → (length uids ≤ budget) × Identified peer fetched m.remote_ids u
unfolding has_uid
of_uids_known peer folder budget [] fetched m u hs e k = cc
of_uids_known peer folder budget (x ∷ xs) fetched m u hs e k =
    let uids = x ∷ xs in
    elim (Bool-cases (ltb budget (length uids))) [
      | inl large ↦ absurd (none_not_some m (sym (large_unknown large) ∙ e))
      | inr small ↦
          let g = gather peer uids fetched empty_gathered in
          let (same, seen) =
            if_complete-some uids g m u (sym (small_read small ∙ ap (of_headers peer uids) hs) ∙ e)
              k in
          (
            ground arith,
            subst (λ ids. Identified peer fetched ids u) same
                (gather-Covered peer uids fetched fetched empty_gathered (λ h l. l)
                  (start-Covered peer uids fetched) u seen),
          )
    ]
  where
    large_unknown :
        ltb budget (length (x ∷ xs)) ≡ true → of_uids peer folder budget (ok (x ∷ xs)) ≡ ok none
    large_unknown h = rw h refl

    small_read :
        ltb budget (length (x ∷ xs)) ≡ false
        → of_uids peer folder budget (ok (x ∷ xs))
          ≡ of_headers peer (x ∷ xs) (peer.headers folder (x ∷ xs))
    small_read h = rw h refl

of_selected_known :
    (peer : Peer) (folder : Text) (budget : ℕ) (selected : Option ImapSelected)
    (r : Result MailError ImapSelected) (m : FolderMembership)
    → (of_selected peer folder budget selected r).0 ≡ ok (some m)
    → of_uids peer folder budget (peer.all_uids folder) ≡ ok (some m)
of_selected_known peer folder budget selected (err e) m h = cc
of_selected_known peer folder budget selected (ok state) m h =
    elim (Bool-cases (ltb budget state.exists)) [
      | inl large ↦ absurd (none_not_some m (sym (ap pick large) ∙ h))
      | inr small ↦ sym (ap pick small) ∙ h
    ]
  where
    pick : Bool → Result MailError (Option FolderMembership)
    pick b = if b then ok none else of_uids peer folder budget (peer.all_uids folder)

-- A folder counts as known only if it is known completely: every UID that the server lists has a
-- fetched header whose id is among the folder's ids, and the folder is within the budget.
pub collect_folder_complete :
    (peer : Peer) (folder : Text) (budget : ℕ) (selected : Option ImapSelected) (uids : List ℤ)
    (fetched : List ImapFetchedHeader) (m : FolderMembership) (u : ℤ)
    → peer.all_uids folder ≡ ok uids
    → peer.headers folder uids ≡ ok fetched
    → (collect_folder peer folder budget selected).0 ≡ ok (some m)
    → has_uid uids u ≡ true
    → (length uids ≤ budget) × Identified peer fetched m.remote_ids u
unfolding collect_folder
collect_folder_complete peer folder budget selected uids fetched m u us hs known k =
    of_uids_known peer folder budget uids fetched m u hs
      (sym (ap (of_uids peer folder budget) us)
        ∙ of_selected_known peer folder budget selected (peer.select folder) m known)
      k
