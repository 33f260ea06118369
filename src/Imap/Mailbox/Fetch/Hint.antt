-- ===== src/Imap/Mailbox/Fetch/Hint.antt =====
-- What the remembered UID may give.
use lagoon_email.Prelude.{
  Text, text_eq_sound, Bool, true, false, Option, none, some, Result, ok, err, ℤ, ◌≡◌, ap, arith,
  inl, inr, subst, if◌then◌else◌, Bool-cases,
}
use lagoon_email.Mail.Error.{MailError}
use lagoon_email.Imap.Client.{Link, World}
use lagoon_email.Imap.Client.Commands.{fetch_full_body}
use lagoon_email.Imap.Mailbox.Session.{with_inbox}
use lagoon_email.Imap.Mailbox.Resolve.{message_id_of, is_mailbox_local_id}
use lagoon_email.Imap.Mailbox.Fetch.{fetch_at_stored_uid, checked, is_id}

module _ {S : Type 0} (link : Link S) where
  is_id_sound : (id : Text) (found : Option Text) → is_id id found ≡ true → found ≡ some id
  is_id_sound id none h = cc
  is_id_sound id (some other) h = ap some (text_eq_sound other id h)

  checked-right :
      (id raw : Text) (r : Result MailError Text × World S)
      → (checked link id r).0 ≡ ok (some raw)
      → message_id_of link.reading raw ≡ some id
  checked-right id raw (err e, w) h = absurd (ground (arith, h))
  checked-right id raw (ok bytes, w) h =
      elim (Bool-cases (is_id id (message_id_of link.reading bytes))) [
        | inl t ↦
            subst (λ b. message_id_of link.reading b ≡ some id) (ground (arith, h, t))
              (is_id_sound id (message_id_of link.reading bytes) t)
        | inr t ↦ absurd (ground (arith, h, t))
      ]

  -- A message that is served by the remembered UID carries the id that was asked for, so that a UID
  -- which now belongs to another message never serves that one.
  pub fetch_at_stored_uid-right :
      (id : Text) (uid : ℤ) (w : World S) (raw : Text)
      → (fetch_at_stored_uid link id uid w).0 ≡ ok (some raw)
      → message_id_of link.reading raw ≡ some id
  unfolding fetch_at_stored_uid
  fetch_at_stored_uid-right id uid w raw h = decided (is_mailbox_local_id link.reading id) h
    where
      decided :
          (b : Bool)
          → (if b
              then (ok none, w)
              else checked link id (with_inbox link (fetch_full_body link uid) w)).0
            ≡ ok (some raw)
          → message_id_of link.reading raw ≡ some id
      decided true h = absurd (ground (arith, h))
      decided false h = checked-right id raw (with_inbox link (fetch_full_body link uid) w) h
