-- ===== src/Imap/Mailbox/Kept/Backed.antt =====
-- What is expunged was flagged by the program itself.
use lagoon_email.Prelude.{
  Text, codes, text_eq, Bool, true, false, ◌&&◌, ◌||◌, Option, none, some, text_eq_refl, List, [],
  ◌∷◌, Result, ok, err, ℤ, int_eq, int_eq_iff, all, ◌≡◌, ◌++◌, refl, arith, ap, ◌∙◌,
}
use lagoon_email.Mail.Error.{MailError}
use lagoon_email.Imap.Parser.{ImapResponse}
use lagoon_email.Imap.Client.{
  Command, Mark, give, ask_capability, add_flags, expunge_uids, Link, World, continue, ◌>>=◌, ◌>>◌,
  execute, perform, line_of, noted, chosen, ignore, spaced,
}
use lagoon_email.Imap.Client.Commands.{store, uid_expunge, uid_expunge_many}
use lagoon_email.Imap.Mailbox.Resolve.{deleted_flag, remove_one}
use lagoon_email.Imap.Mailbox.Operations.{Operation, after_all, flag_all}
use lagoon_email.Imap.Mailbox.Kept.Asking.{Learns, capability-Learns}
use lagoon_email.Imap.Mailbox.Kept.Whole.{Rule, Log, is_harmless, Holds-after_all}

abbrev pub same_folder : Option Text → Option Text → Bool
same_folder none none = true
same_folder (some a) (some b) = text_eq a b
same_folder _ _ = false

-- In this folder, a STORE of the deleted flag for this UID was accepted.
unfoldable pub flagged : Option Text → Log → ℤ → Bool
flagged folder [] uid = false
flagged folder (((at, accepted), add_flags u flags) ∷ log) uid =
    (accepted && (same_folder at folder && (int_eq u uid && text_eq flags deleted_flag)))
    || flagged folder log uid
flagged folder ((mark, _) ∷ log) uid = flagged folder log uid

-- Each UID of an EXPUNGE was flagged before it, in the folder of the EXPUNGE.
unfoldable pub backed : Log → Bool
backed [] = true
backed (((at, accepted), expunge_uids uids) ∷ log) = all (flagged at log) uids && backed log
backed ((mark, _) ∷ log) = backed log

backed-step :
    (c : Command)
    → is_harmless c ≡ true
    → (at : Mark) (log : Log) → backed log ≡ true
    → backed ((at, c) ∷ log) ≡ true
unfolding backed
backed-step (expunge_uids uids) e at log h = cc
backed-step _ e at log h = h

flagged-step :
    (c : Command) (at : Mark) (folder : Option Text) (log : Log) (uid : ℤ)
    → flagged folder log uid ≡ true
    → flagged folder ((at, c) ∷ log) uid ≡ true
unfolding flagged
flagged-step (add_flags u flags) at folder log uid h = ground (arith, h)
flagged-step _ at folder log uid h = h

all-flagged :
    (c : Command) (at : Mark) (folder : Option Text) (log : Log) (uids : List ℤ)
    → all (flagged folder log) uids ≡ true
    → all (flagged folder ((at, c) ∷ log)) uids ≡ true
unfolding all
all-flagged c at folder log [] h = refl
all-flagged c at folder log (u ∷ us) h =
    ground (arith, h, flagged-step c at folder log u, all-flagged c at folder log us)

same_folder-itself : (at : Option Text) → same_folder at at ≡ true
same_folder-itself none = refl
same_folder-itself (some a) = text_eq_refl a

flagged-itself :
    (at : Option Text) (log : Log) (uid : ℤ)
    → flagged at (((at, true), add_flags uid deleted_flag) ∷ log) uid ≡ true
unfolding flagged text_eq
flagged-itself at log uid =
    let (_, back) = int_eq_iff uid uid in rw (same_folder-itself at, back refl) refl

module _ {S : Type 0} (link : Link S) where
  expunge-log :
      (uids : List ℤ) (w : World S)
      → (b : Bool) × ((perform link (expunge_uids uids) w).1.log
          ≡ ((w.at, b), expunge_uids uids) ∷ w.log)
  unfolding perform execute line_of chosen ◌>>=◌
  expunge-log uids w =
      settled (link.execute (codes "UID EXPUNGE " ++ spaced link.decimal uids) w.connection)
    where
      settled :
          (r : Result MailError (List ImapResponse) × S)
          → (b : Bool) × ((continue ignore (noted (expunge_uids uids) w r)).1.log
              ≡ ((w.at, b), expunge_uids uids) ∷ w.log)
      settled (ok rs, s) = (true, refl)
      settled (err e, s) = (false, refl)

  -- The flag is in the log as it was answered, and the folder stays.
  Stored : ℤ → World S → Result MailError (Unit {0}) × World S → Type 0
  Stored uid w (ok u, v) =
      (v.log ≡ ((w.at, true), add_flags uid deleted_flag) ∷ w.log) × (v.at ≡ w.at)
  Stored uid w (err e, v) = v.log ≡ ((w.at, false), add_flags uid deleted_flag) ∷ w.log

  store-Stored : (uid : ℤ) (w : World S) → Stored uid w (store link uid deleted_flag [] w)
  unfolding store text_eq perform execute line_of chosen ◌>>=◌ Stored
  store-Stored uid w = settled (
      link.execute
        (codes "UID STORE "
          ++ (link.decimal uid ++ (codes " +FLAGS (" ++ (deleted_flag ++ codes ")"))))
        w.connection)
    where
      settled :
          (r : Result MailError (List ImapResponse) × S)
          → Stored uid w
              (continue (λ _. give tt) (continue ignore (noted (add_flags uid deleted_flag) w r)))
      settled (ok rs, s) = (refl, refl)
      settled (err e, s) = refl

  -- the end of a removal: what is expunged has been flagged
  expunge-backed :
      (uids : List ℤ) (w : World S)
      → backed w.log ≡ true
      → all (flagged w.at w.log) uids ≡ true
      → backed (perform link (expunge_uids uids) w).1.log ≡ true
  unfolding backed
  expunge-backed uids w h f = let (b, e) = expunge-log uids w in rw (e, f) h

  flagged_next :
      (uid : ℤ) (w v : World S)
      → (v.log ≡ ((w.at, true), add_flags uid deleted_flag) ∷ w.log) × (v.at ≡ w.at)
      → flagged v.at v.log uid ≡ true
  flagged_next uid w v (log, at) = rw (log, at) (flagged-itself w.at w.log uid)

  remove_one-backed :
      (uid : ℤ) (w : World S) → backed w.log ≡ true → backed (remove_one link uid w).1.log ≡ true
  unfolding remove_one uid_expunge ◌>>=◌ backed all Stored
  remove_one-backed uid w h = expunged (store link uid deleted_flag [] w) (store-Stored uid w)
    where
      expunged :
          (r : Result MailError (Unit {0}) × World S)
          → Stored uid w r
          → backed (continue (λ _. perform link (expunge_uids (uid ∷ []))) r).1.log ≡ true
      expunged (err e, v) q = ap backed q ∙ h
      expunged (ok u, v) q =
          expunge-backed (uid ∷ []) v (ap backed q.0 ∙ h)
            (ap (λ b. b && true) (flagged_next uid w v q))

  -- all that is flagged so far, and where the flags all went through the rest
  Flagged : List ℤ → List ℤ → Result MailError (Unit {0}) × World S → Type 0
  Flagged us before (ok u, v) =
      (backed v.log ≡ true)
      × ((all (flagged v.at v.log) us ≡ true) × (all (flagged v.at v.log) before ≡ true))
  Flagged us before (err e, v) = backed v.log ≡ true

  flag_all-Flagged :
      (us before : List ℤ) (w : World S)
      → backed w.log ≡ true
      → all (flagged w.at w.log) before ≡ true
      → Flagged us before (flag_all link us w)
  unfolding flag_all Flagged backed all ◌>>=◌ Stored
  flag_all-Flagged [] before w h f = (h, (refl, f))
  flag_all-Flagged (u ∷ us) before w h f =
      next (store link u deleted_flag [] w) (store-Stored u w) (flag_all-Flagged us (u ∷ before))
    where
      reorder :
          (r : Result MailError (Unit {0}) × World S)
          → Flagged us (u ∷ before) r
          → Flagged (u ∷ us) before r
      reorder (ok t, v) (b, (x, y)) = ground (arith, b, x, y)
      reorder (err e, v) b = b

      next :
          (r : Result MailError (Unit {0}) × World S)
          → Stored u w r
          → ((v : World S)
              → backed v.log ≡ true
              → all (flagged v.at v.log) (u ∷ before) ≡ true
              → Flagged us (u ∷ before) (flag_all link us v))
          → Flagged (u ∷ us) before (continue (λ _. flag_all link us) r)
      next (err e, v) q ih = ap backed q ∙ h
      next (ok t, v) q ih =
          reorder (flag_all link us v)
            (ih v (ap backed q.0 ∙ h) (rw (flagged_next u w v q) (still v q)))
        where
          still :
              (v : World S)
              → (v.log ≡ ((w.at, true), add_flags u deleted_flag) ∷ w.log) × (v.at ≡ w.at)
              → all (flagged v.at v.log) before ≡ true
          still v (log, at) =
              rw (log, at) (all-flagged (add_flags u deleted_flag) (w.at, true) w.at w.log before f)

  purge-backed :
      (uids : List ℤ) (w : World S)
      → backed w.log ≡ true
      → backed ((flag_all link uids >> uid_expunge_many link uids) w).1.log ≡ true
  unfolding uid_expunge_many Flagged all ◌>>=◌
  purge-backed uids w h = expunged uids (flag_all link uids w) (flag_all-Flagged uids [] w h refl)
    where
      expunged :
          (us : List ℤ) (r : Result MailError (Unit {0}) × World S)
          → Flagged us [] r
          → backed (continue (λ _. uid_expunge_many link us) r).1.log ≡ true
      expunged us (err e, v) b = b
      expunged [] (ok t, v) (b, f) = b
      expunged (u ∷ us) (ok t, v) (b, f) = expunge-backed (u ∷ us) v b f.0

  backed_rule : Rule link
  backed_rule = record {
    rule = λ log names. backed log ≡ true;
    granted = λ names. Unit;
    reset = λ log names h. h;
    step = λ c e at log names h. backed-step c e at log h;
    capability_keeps = λ w h.
        capability-Learns link (λ log names. backed log ≡ true) (λ names. Unit) w
          (λ log names k. tt) (λ b k. backed-step ask_capability refl (w.at, b) w.log k)
          (learned (link.execute (codes "CAPABILITY") w.connection).0) h;
    remove_keeps = λ names g e uid w h. remove_one-backed uid w h;
    purge_keeps = λ names g e uids w h. purge-backed uids w h;
  }
    where
      learned :
          (r : Result MailError (List ImapResponse))
          → Learns (λ log names. backed log ≡ true) (λ names. Unit) r
      learned (err e) = tt
      learned (ok rs) = (λ log names h. h, tt)

-- However the server answers, no sequence of operations expunges a UID for which the server had not
-- accepted the program's own deleted flag before, in the folder of the EXPUNGE: a UID that only another
-- client flagged is not removed.
pub after_all-backed :
    {S : Type 0} (link : Link S) (os : List Operation) (w : World S)
    → backed w.log ≡ true
    → backed (after_all link os w).log ≡ true
unfolding backed_rule
after_all-backed link os w h = Holds-after_all link (backed_rule link) os w h
