-- ===== src/Imap/Mailbox/Stale.antt =====
-- What a refused SELECT leaves behind.
use lagoon_email.Prelude.{false}
use lagoon_email.Prelude.{
  Text, codes, true, none, some, List, ◌∷◌, Result, ok, err, ◌≡◌, refl, arith, ap, ◌∙◌, ◌++◌,
}
use lagoon_email.Mail.Error.{MailError, protocol_kind}
use lagoon_email.Imap.Parser.{ImapResponse}
use lagoon_email.Imap.Quoting.{quoted}
use lagoon_email.Imap.Membership.{is_fatal}
use lagoon_email.Imap.Client.{
  Link, World, Imap, continue, ◌>>=◌, ◌>>◌, execute, line_of, noted, chosen, choose, send_line,
  give,
}
use lagoon_email.Imap.Client.Responses.{selected_of}
use lagoon_email.Imap.Client.Commands.{select}
use lagoon_email.Imap.Mailbox.Session.{
  live, ensure_live, ensure_session, with_session, enter, select_inbox, note_selected, in_inbox,
}

module _ {S : Type 0} (link : Link S) where
  -- the state behind a SELECT that was refused
  behind : Text → Text → World S → World S
  behind folder line w = record w {
    connection = (link.execute (codes "SELECT " ++ line) w.connection).1;
    at = none;
    log = ((w.at, false), choose folder) ∷ w.log;
  }

  line_of-choose :
      (folder line : Text)
      → quoted folder ≡ ok line
      → line_of link.decimal (choose folder) ≡ ok (codes "SELECT " ++ line)
  unfolding line_of
  line_of-choose folder line q = ap (λ r. before_quoted r) q
    where
      before_quoted : Result MailError Text → Result MailError Text
      before_quoted r = elim r [ ok t ↦ ok (codes "SELECT " ++ t) | err f ↦ err f ]

  enter-refused :
      (folder line : Text) (w : World S) (e : MailError)
      → quoted folder ≡ ok line
      → (link.execute (codes "SELECT " ++ line) w.connection).0 ≡ err e
      → enter link folder w ≡ (err e, behind folder line w)
  unfolding behind enter select execute chosen ◌>>=◌
  enter-refused folder line w e q refused =
      ap (λ r. reached r) (line_of-choose folder line q)
      ∙ answered (link.execute (codes "SELECT " ++ line) w.connection) refused
    where
      reached : Result MailError Text → Result MailError (Unit {0}) × World S
      reached r =
          continue (λ state. note_selected link (some state))
            (continue (λ rs. give (selected_of link.reading folder rs))
              (send_line link (choose folder) r w))

      answered :
          (r : Result MailError (List ImapResponse) × S)
          → r.0 ≡ err e
          → continue
              (λ state. note_selected link (some state))
              (continue
                (λ rs. give (selected_of link.reading folder rs))
                (noted (choose folder) w r))
            ≡ (
              err e,
              record w {
                connection = r.1;
                at = none;
                log = ((w.at, false), choose folder) ∷ w.log;
              },
            )
      answered (ok rs, s) h = absurd (ground (arith, h))
      answered (err f, s) h = ground (arith, h)

  with_session-refused :
      {A : Type 0} (folder line : Text) (body : Imap S A) (w : World S) (e : MailError)
      → live link w ≡ true
      → enter link folder w ≡ (err e, behind folder line w)
      → e.kind ≡ protocol_kind
      → (with_session link (enter link folder >> body) w).1 ≡ behind folder line w
  unfolding with_session ensure_live ensure_session ◌>>=◌ is_fatal
  with_session-refused folder line body w e alive entered kind = rw (alive, entered, kind) refl

  -- A server that refuses to select a folder has none selected, but the provider still counts the inbox
  -- as selected where it did before: the next operation on the inbox sends its commands without a SELECT.
  pub refused_select :
      {A : Type 0} (folder line : Text) (body : Imap S A) (w : World S) (e : MailError)
      → live link w ≡ true
      → in_inbox link w.provider.selected ≡ true
      → quoted folder ≡ ok line
      → (link.execute (codes "SELECT " ++ line) w.connection).0 ≡ err e
      → e.kind ≡ protocol_kind
      → ((with_session link (enter link folder >> body) w).1.at ≡ none)
        × (select_inbox link (with_session link (enter link folder >> body) w).1
            ≡ (ok tt, (with_session link (enter link folder >> body) w).1))
  unfolding behind select_inbox
  refused_select folder line body w e alive inside q refused kind =
      let state =
        with_session-refused folder line body w e alive (enter-refused folder line w e q refused)
          kind in
      rw state (refl, rw inside refl)
