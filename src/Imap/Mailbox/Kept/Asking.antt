-- ===== src/Imap/Mailbox/Kept/Asking.antt =====
-- What asking for the capabilities keeps.
use lagoon_email.Prelude.{
  Text, codes, Bool, true, false, Option, none, some, List, ◌∷◌, Result, ok, err, if◌then◌else◌,
}
use lagoon_email.Mail.Error.{MailError}
use lagoon_email.Imap.Parser.{ImapResponse}
use lagoon_email.Imap.Client.{
  ask_capability, is_ok, Link, World, continue, ◌>>=◌, execute, line_of, noted, chosen,
}
use lagoon_email.Imap.Client.Responses.{capability_names, saw_capability}
use lagoon_email.Imap.Client.Commands.{capability, cached_or_asked, remember}
use lagoon_email.Imap.Mailbox.Kept.{Grants}
use lagoon_email.Imap.Mailbox.Kept.Whole.{Log}

abbrev pub Learns :
    (Log → Option (List Text) → Type 0)
    → (List Text → Type 0)
    → Result MailError (List ImapResponse)
    → Type 0
Learns R P (err e) = Unit
Learns R P (ok rs) =
    ((log : Log) (names : Option (List Text)) → R log names → R log (some (capability_names rs)))
    × P (capability_names rs)

pub capability-Learns :
    {S : Type 0} (link : Link S) (R : Log → Option (List Text) → Type 0) (P : List Text → Type 0)
    (w : World S)
    → ((log : Log) (names : List Text) → R log (some names) → P names)
    → ((b : Bool)
        → R w.log w.cached_capabilities
        → R (((w.at, b), ask_capability) ∷ w.log) w.cached_capabilities)
    → Learns R P (link.execute (codes "CAPABILITY") w.connection).0
    → R w.log w.cached_capabilities
    → R (capability link w).1.log (capability link w).1.cached_capabilities
      × Grants P (capability link w).0
unfolding capability execute line_of chosen ◌>>=◌
capability-Learns {S = S} link R P w known asking learns h = cached w.cached_capabilities h
  where
    W : Type 0
    W = World S

    if-learns :
        (b : Bool) (rs : List ImapResponse) (v : W)
        → Learns R P (ok rs)
        → R v.log v.cached_capabilities
        → R
            (if b then record v { cached_capabilities = some (capability_names rs) } else v).log
            (if b
              then record v { cached_capabilities = some (capability_names rs) }
              else v).cached_capabilities
    if-learns true rs v (l, p) k = l v.log v.cached_capabilities k
    if-learns false rs v l k = k

    asked :
        (r : Result MailError (List ImapResponse)) (v : W)
        → Learns R P r
        → R v.log v.cached_capabilities
        → R
            (continue (remember link) (r, v)).1.log
            (continue (remember link) (r, v)).1.cached_capabilities
          × Grants P (continue (remember link) (r, v)).0
    asked (err e) v l k = (k, tt)
    asked (ok rs) v l k = (if-learns (saw_capability rs) rs v l k, l.1)

    cached :
        (names : Option (List Text))
        → R w.log names
        → R
            (cached_or_asked link names w).1.log
            (cached_or_asked link names w).1.cached_capabilities
          × Grants P (cached_or_asked link names w).0
    cached (some names) k = (h, known w.log names k)
    cached none k =
        asked (link.execute (codes "CAPABILITY") w.connection).0
          (noted ask_capability w (link.execute (codes "CAPABILITY") w.connection)).1 learns
          (asking (is_ok (link.execute (codes "CAPABILITY") w.connection).0) h)
