-- ===== src/Imap/Mailbox/Kept.antt =====
-- What the body of an operation keeps: a property of the state that every ordinary command keeps, and
-- the removal of one message where the server may have UIDPLUS.
pub mod Whole
pub mod Asking
pub mod Backed
pub mod NoUidplus
use lagoon_email.Prelude.{
  Text, codes, text_eq, Bool, true, false, not, Option, none, some, List, [], ◌∷◌, Result, ok, err,
  ℤ, contains, ◌≡◌, refl, inl, inr, Bool-cases, if◌then◌else◌,
}
use lagoon_email.Mail.Error.{MailError, is_message_verdict}
use lagoon_email.Imap.Client.{
  Command, choose, expunge_uids, add_flags, Link, World, Imap, continue, ◌>>=◌, ◌>>◌, noted,
  execute, send_line, line_of, perform, lift, give,
}
use lagoon_email.Imap.Client.Commands.{
  capability, move_to, copy, store, search_uid_by_message_id, fetch_headers_from_uid,
  create_mailbox, all_uids,
}
use lagoon_email.Imap.Mailbox.Resolve.{
  deleted_flag, seen_flag, resolve_uid, move_safely, remove_one, local_uid, search_for, scan_for,
  or_copied, copy_and_remove,
}
use lagoon_email.Imap.Mailbox.Operations.{
  mark, move_uid_into, resolve_or_gone, or_by_copy, or_created, create_and_copy, or_false, attempt,
  removed, copy_or_create, by_copy, try_move, or_message_gone,
}

abbrev pub is_ordinary : Command → Bool
is_ordinary (choose mailbox) = false
is_ordinary (expunge_uids uids) = false
is_ordinary (add_flags uid flags) = not (text_eq flags deleted_flag)
is_ordinary _ = true

abbrev pub Grants : (List Text → Type 0) → Result MailError (List Text) → Type 0
Grants P (ok names) = P names
Grants P (err e) = Unit

pub record Kept {S : Type 0} (link : Link S) : Type 1 where
  pub holds : World S → Type 0
  pub granted : List Text → Type 0
  pub ordinary :
      {A : Type 0} (c : Command)
      → is_ordinary c ≡ true
      → (w : World S) (r : Result MailError A) (s : S) → holds w
      → holds (noted c w (r, s)).1
  pub capability_keeps :
      (w : World S) → holds w → holds (capability link w).1 × Grants granted (capability link w).0
  pub remove_keeps :
      (names : List Text)
      → granted names
      → contains names (codes "UIDPLUS") ≡ true
      → (uid : ℤ) (w : World S) → holds w
      → holds (remove_one link uid w).1

module _ {S : Type 0} (link : Link S) (kept : Kept link) where
  abbrev pub Keeps : {A : Type 0} → Imap S A → Type 0
  Keeps m = (w : World S) → kept.holds w → kept.holds (m w).1

  continue-Keeps :
      {A B : Type 0} (k : A → Imap S B) (r : Result MailError A × World S)
      → ((a : A) → Keeps (k a))
      → kept.holds r.1
      → kept.holds (continue k r).1
  continue-Keeps k (ok a, w) q h = q a w h
  continue-Keeps k (err e, w) q h = h

  pub bind-Keeps :
      {A B : Type 0} (m : Imap S A) (k : A → Imap S B)
      → Keeps m
      → ((a : A) → Keeps (k a))
      → Keeps (m >>= k)
  unfolding ◌>>=◌
  bind-Keeps m k qm qk w h = continue-Keeps k (m w) qk (qm w h)

  pub execute-Keeps : (c : Command) → is_ordinary c ≡ true → Keeps (execute link c)
  unfolding execute
  execute-Keeps c e w h = sent (line_of link.decimal c)
    where
      sent : (line : Result MailError Text) → kept.holds (send_line link c line w).1
      sent (err f) = h
      sent (ok line) =
          kept.ordinary c e w (link.execute line w.connection).0 (link.execute line w.connection).1
            h

  pub perform-Keeps : (c : Command) → is_ordinary c ≡ true → Keeps (perform link c)
  unfolding perform
  perform-Keeps c e = bind-Keeps (execute link c) _ (execute-Keeps c e) (λ _ w h. h)

  continue_granted-Keeps :
      {B : Type 0} (k : List Text → Imap S B) (r : Result MailError (List Text) × World S)
      → ((names : List Text) → kept.granted names → Keeps (k names))
      → kept.holds r.1 × Grants kept.granted r.0
      → kept.holds (continue k r).1
  continue_granted-Keeps k (ok names, w) q (h, g) = q names g w h
  continue_granted-Keeps k (err e, w) q (h, g) = h

  pub capability-Keeps :
      {B : Type 0} (k : List Text → Imap S B)
      → ((names : List Text) → kept.granted names → Keeps (k names))
      → Keeps (capability link >>= k)
  unfolding ◌>>=◌
  capability-Keeps k q w h =
      continue_granted-Keeps k (capability link w) q (kept.capability_keeps w h)

  pub if-Keeps :
      {A : Type 0} (b : Bool) (m n : Imap S A)
      → (b ≡ true → Keeps m)
      → Keeps n
      → Keeps (λ w. (if b then m else n) w)
  if-Keeps true m n qm qn = qm refl
  if-Keeps false m n qm qn = qn

  move_to-Keeps : (uid : ℤ) (target : Text) → Keeps (move_to link uid target)
  unfolding move_to
  move_to-Keeps uid target = capability-Keeps _ (λ names g.
      if-Keeps (contains names (codes "MOVE")) _ _ (λ _. perform-Keeps _ refl) (λ w h. h))

  copy-Keeps : (uid : ℤ) (target : Text) → Keeps (copy link uid target)
  unfolding copy
  copy-Keeps uid target = perform-Keeps _ refl

  search-Keeps : (id : Text) → Keeps (search_uid_by_message_id link id)
  unfolding search_uid_by_message_id
  search-Keeps id = bind-Keeps (execute link _) _ (execute-Keeps _ refl) (λ _ w h. h)

  fetch-Keeps : (uid : ℤ) (fields : Text) → Keeps (fetch_headers_from_uid link uid fields)
  unfolding fetch_headers_from_uid
  fetch-Keeps uid fields = bind-Keeps (execute link _) _ (execute-Keeps _ refl) (λ _ w h. h)

  scan_for-Keeps : (id : Text) (found : Option ℤ) → Keeps (scan_for link id found)
  scan_for-Keeps id (some uid) w h = h
  scan_for-Keeps id none w h =
      bind-Keeps (fetch_headers_from_uid link _ _) _ (fetch-Keeps _ _) (λ _ w h. h) w h

  search_for-Keeps : (id : Text) (found : Option ℤ) → Keeps (search_for link id found)
  search_for-Keeps id (some uid) w h = h
  search_for-Keeps id none w h =
      bind-Keeps (search_uid_by_message_id link id) _ (search-Keeps id) (scan_for-Keeps id) w h

  pub resolve_uid-Keeps : (id : Text) → Keeps (resolve_uid link id)
  unfolding resolve_uid
  resolve_uid-Keeps id = search_for-Keeps id (local_uid link.reading id)

  pub then_remove-Keeps :
      {A : Type 0} (names : List Text) (uid : ℤ) (k : Imap S A)
      → kept.granted names
      → contains names (codes "UIDPLUS") ≡ true
      → Keeps k
      → Keeps (remove_one link uid >> k)
  then_remove-Keeps names uid k g e q =
      bind-Keeps (remove_one link uid) _ (kept.remove_keeps names g e uid) (λ _. q)

  copy_and_remove-Keeps : (uid : ℤ) (target : Text) → Keeps (copy_and_remove link uid target)
  copy_and_remove-Keeps uid target = capability-Keeps _ (λ names g.
      if-Keeps (contains names (codes "UIDPLUS")) _ _
        (λ e.
          bind-Keeps (copy link uid target) _ (copy-Keeps uid target)
            (λ _. kept.remove_keeps names g e uid))
        (λ w h. h))

  pub move_safely-Keeps : (uid : ℤ) (target : Text) → Keeps (move_safely link uid target)
  unfolding move_safely
  move_safely-Keeps uid target w h =
      settled (move_to link uid target w) (move_to-Keeps uid target w h)
    where
      settled :
          (r : Result MailError (Unit {0}) × World S)
          → kept.holds r.1
          → kept.holds (or_copied link uid target r).1
      settled (ok u, v) k = k
      settled (err e, v) k = elim (Bool-cases (is_message_verdict e)) [
        | inl t ↦ rw t (copy_and_remove-Keeps uid target v k)
        | inr t ↦ rw t k
      ]

  or_false-Keeps :
      (next : Imap S Bool) (r : Result MailError (Unit {0}) × World S)
      → Keeps next
      → kept.holds r.1
      → kept.holds (or_false link next r).1
  or_false-Keeps next (ok u, v) q k = q v k
  or_false-Keeps next (err e, v) q k = elim (Bool-cases (is_message_verdict e)) [
    | inl t ↦ rw t k
    | inr t ↦ rw t k
  ]

  pub create-Keeps : (name : Text) → Keeps (create_mailbox link name)
  unfolding create_mailbox
  create-Keeps name = perform-Keeps _ refl

  copy_or_create-Keeps :
      (names : List Text) (uid : ℤ) (target : Text) (create : Bool)
      → kept.granted names
      → contains names (codes "UIDPLUS") ≡ true
      → Keeps (copy_or_create link uid target create)
  copy_or_create-Keeps names uid target create g e w h =
      settled create (copy link uid target w) (copy-Keeps uid target w h)
    where
      removed-Keeps : Keeps (removed link uid)
      removed-Keeps = then_remove-Keeps names uid _ g e (λ w h. h)

      copied : Keeps (attempt link (copy link uid target) (removed link uid))
      copied v k =
          or_false-Keeps _ (copy link uid target v) removed-Keeps (copy-Keeps uid target v k)

      settled :
          (create : Bool) (r : Result MailError (Unit {0}) × World S)
          → kept.holds r.1
          → kept.holds (or_created link uid target create r).1
      settled create (ok u, v) k = removed-Keeps v k
      settled create (err f, v) k = elim (Bool-cases (is_message_verdict f)) [
        | inl t ↦ rw t (made create)
        | inr t ↦ rw t k
      ]
        where
          made :
              (create : Bool)
              → kept.holds ((if create then create_and_copy link uid target v else (ok false, v))).1
          made true =
              or_false-Keeps _ (create_mailbox link target v) copied (create-Keeps target v k)
          made false = k

  by_copy-Keeps : (uid : ℤ) (target : Text) (create : Bool) → Keeps (by_copy link uid target create)
  by_copy-Keeps uid target create = capability-Keeps _ (λ names g.
      if-Keeps (contains names (codes "UIDPLUS")) _ _
        (λ e. copy_or_create-Keeps names uid target create g e) (λ w h. h))

  pub move_uid_into-Keeps :
      (target : Text) (create : Bool) (uid : ℤ) → Keeps (move_uid_into link target create uid)
  unfolding move_uid_into
  move_uid_into-Keeps target create uid = capability-Keeps _ (λ names g. tried names)
    where
      settled :
          (r : Result MailError (Unit {0}) × World S)
          → kept.holds r.1
          → kept.holds (or_by_copy link uid target create r).1
      settled (ok u, v) k = k
      settled (err f, v) k = elim (Bool-cases (is_message_verdict f)) [
        | inl t ↦ rw t (by_copy-Keeps uid target create v k)
        | inr t ↦ rw t k
      ]

      tried : (names : List Text) → Keeps (try_move link uid target create names)
      tried names w h = elim (Bool-cases (contains names (codes "MOVE"))) [
        | inl t ↦ rw t (settled (move_to link uid target w) (move_to-Keeps uid target w h))
        | inr t ↦ rw t (by_copy-Keeps uid target create w h)
      ]

  pub resolve_or_gone-Keeps : (id : Text) → Keeps (resolve_or_gone link id)
  resolve_or_gone-Keeps id w h = settled (resolve_uid link id w) (resolve_uid-Keeps id w h)
    where
      settled :
          (r : Result MailError ℤ × World S)
          → kept.holds r.1
          → kept.holds (or_message_gone link r).1
      settled (ok uid, v) k = k
      settled (err e, v) k = k

  pub mark-Keeps : (is_read : Bool) (uid : ℤ) → Keeps (mark link is_read uid)
  unfolding store text_eq perform ◌>>=◌
  mark-Keeps true uid = bind-Keeps (perform link _) _ (perform-Keeps _ refl) (λ _ w h. h)
  mark-Keeps false uid = perform-Keeps _ refl
