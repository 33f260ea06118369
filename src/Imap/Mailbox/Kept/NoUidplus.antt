-- ===== src/Imap/Mailbox/Kept/NoUidplus.antt =====
-- A server without UIDPLUS.
use lagoon_email.Prelude.{
  Text, codes, Bool, true, false, ◌&&◌, Option, none, some, List, [], ◌∷◌, Result, ok, err,
  contains, ◌≡◌, refl, arith,
}
use lagoon_email.Mail.Error.{MailError}
use lagoon_email.Imap.Parser.{ImapResponse}
use lagoon_email.Imap.Client.{Command, Mark, ask_capability, Link, World}
use lagoon_email.Imap.Client.Responses.{capability_names}
use lagoon_email.Imap.Mailbox.Operations.{Operation, after_all}
use lagoon_email.Imap.Mailbox.Kept.Asking.{Learns, capability-Learns}
use lagoon_email.Imap.Mailbox.Kept.Whole.{Rule, Log, is_harmless, Holds-after_all}

-- No command that flags a message as deleted or expunges one was sent.
unfoldable pub calm : Log → Bool
calm [] = true
calm ((at, c) ∷ log) = is_harmless c && calm log

abbrev pub Lacks : List Text → Type 0
Lacks names = contains names (codes "UIDPLUS") ≡ false

abbrev pub LacksIn : Option (List Text) → Type 0
LacksIn none = Unit
LacksIn (some names) = Lacks names

abbrev pub AnswersWithout : Result MailError (List ImapResponse) → Type 0
AnswersWithout (err e) = Unit
AnswersWithout (ok rs) = Lacks (capability_names rs)

-- The server never lists UIDPLUS.
abbrev pub WithoutUidplus : {S : Type 0} → Link S → Type 0
WithoutUidplus {S = S} link = (s : S) → AnswersWithout (link.execute (codes "CAPABILITY") s).0

module _ {S : Type 0} (link : Link S) (never : WithoutUidplus link) where
  abbrev Calm : Log → Option (List Text) → Type 0
  Calm log names = (calm log ≡ true) × LacksIn names

  Calm-step :
      (c : Command)
      → is_harmless c ≡ true
      → (at : Mark) (log : Log) (names : Option (List Text)) → Calm log names
      → Calm ((at, c) ∷ log) names
  unfolding calm
  Calm-step c e at log names (h, l) = (rw e h, l)

  calm_rule : Rule link
  calm_rule = record {
    rule = Calm;
    granted = Lacks;
    reset = λ log names h. (h.0, tt);
    step = Calm-step;
    capability_keeps = λ w h.
        capability-Learns link Calm Lacks w (λ log names k. k.1)
          (λ b. Calm-step ask_capability refl (w.at, b) w.log w.cached_capabilities)
          (learns w.connection) h;
    remove_keeps = λ names g e uid w h. absurd (ground (arith, g, e));
    purge_keeps = λ names g e uids w h. absurd (ground (arith, g, e));
  }
    where
      learned : (r : Result MailError (List ImapResponse)) → AnswersWithout r → Learns Calm Lacks r
      learned (err e) a = tt
      learned (ok rs) a = (λ log names h. (h.0, a), a)

      learns : (s : S) → Learns Calm Lacks (link.execute (codes "CAPABILITY") s).0
      learns s = learned (link.execute (codes "CAPABILITY") s).0 (never s)

-- On a server that never lists UIDPLUS no sequence of operations flags a message as deleted or expunges
-- one: without it, nothing is removed that could not be removed alone.
pub after_all-calm :
    {S : Type 0} (link : Link S) (os : List Operation) (w : World S)
    → WithoutUidplus link
    → calm w.log ≡ true
    → LacksIn w.cached_capabilities
    → calm (after_all link os w).log ≡ true
unfolding calm_rule
after_all-calm link os w never h l = (Holds-after_all link (calm_rule link never) os w (h, l)).0
