-- ===== src/Imap/Capabilities/Gates.antt =====
-- `negotiate` of crates/lagoon-mail/src/imap/capabilities.rs: the gates, the roles and the one CREATE.
use lagoon_email.Prelude.{
  subst, Text, codes, ◌≡◌, refl, sym, ap, ◌∙◌, Bool, true, false, Option, none, some, List, [], ◌∷◌,
  Result, ok, err, arith, find, any, contains, Bool-cases, inl, inr, if◌then◌else◌,
}
use lagoon_email.Mail.Error.{MailError, is_message_verdict}
use lagoon_email.Imap.Capabilities.{
  ImapMailbox, allows_delete, allows_purge, allows_sent, allows_archive, Negotiated, Server,
  after_create, or_create, resolve_archive_folder, verdicts, with_archive, with_mailboxes,
  with_capabilities, negotiate, discover_roles, is_some, or_else, name_of, is_archive_mailbox,
  default_archive_folder_name,
}

-- the gates say what the roles say
abbrev pub Agrees : List Text → Negotiated → Type 0
Agrees capabilities n =
    (allows_archive n.capabilities ≡ is_some n.roles.archive)
    × (allows_delete n.capabilities ≡ is_some n.roles.trash)
    × (allows_sent n.capabilities ≡ is_some n.roles.sent)
    × (allows_purge n.capabilities ≡ contains capabilities (codes "UIDPLUS"))
    × (n.capabilities.archive_folder_name ≡ n.roles.archive)

-- `resolve_archive_folder` gives no folder only where no folder of the list is an archive.
or_create-archive :
    (server : Server) (allow : Bool) (o : Option ImapMailbox) (archive : Option Text)
    → (or_create server allow o).0 ≡ ok archive
    → or_else archive (name_of o) ≡ archive
unfolding or_create
or_create-archive server allow (some m) none h = cc
or_create-archive server allow (some m) (some t) h = refl
or_create-archive server allow none none h = refl
or_create-archive server allow none (some t) h = refl

verdicts-Agrees :
    (capabilities : List Text) (mailboxes : List ImapMailbox) (archive : Option Text)
    → or_else archive (name_of (find is_archive_mailbox mailboxes)) ≡ archive
    → Agrees capabilities (verdicts capabilities mailboxes archive)
unfolding verdicts discover_roles allows_archive allows_delete allows_sent allows_purge
verdicts-Agrees capabilities mailboxes archive e = (ap is_some (sym e), refl, refl, refl, sym e)

ok_same : (m n : Negotiated) → ◌≡◌ {A = Result MailError Negotiated} (ok m) (ok n) → m ≡ n
ok_same m n h = cc

with_archive-Agrees :
    (capabilities : List Text) (mailboxes : List ImapMailbox)
    (r : Result MailError (Option Text) × List Text) (n : Negotiated)
    → ((archive : Option Text)
        → r.0 ≡ ok archive
        → or_else archive (name_of (find is_archive_mailbox mailboxes)) ≡ archive)
    → (with_archive capabilities mailboxes r).0 ≡ ok n
    → Agrees capabilities n
with_archive-Agrees capabilities mailboxes (err e, created) n same h = cc
with_archive-Agrees capabilities mailboxes (ok archive, created) n same h =
    subst (Agrees capabilities) (ok_same _ n h)
      (verdicts-Agrees capabilities mailboxes archive (same archive refl))

with_mailboxes-Agrees :
    (server : Server) (allow : Bool) (capabilities : List Text)
    (r : Result MailError (List ImapMailbox)) (n : Negotiated)
    → (with_mailboxes server allow capabilities r).0 ≡ ok n
    → Agrees capabilities n
unfolding resolve_archive_folder
with_mailboxes-Agrees server allow capabilities (err e) n h = cc
with_mailboxes-Agrees server allow capabilities (ok mailboxes) n h =
    with_archive-Agrees capabilities mailboxes (resolve_archive_folder server mailboxes allow) n
      (λ archive. or_create-archive server allow (find is_archive_mailbox mailboxes) archive) h

negotiate_known :
    (server : Server) (allow : Bool) (capabilities : List Text)
    → server.capability ≡ ok capabilities
    → negotiate server allow ≡ with_mailboxes server allow capabilities server.list_mailboxes
unfolding negotiate
negotiate_known server allow capabilities e = ap (with_capabilities server allow) e

-- The gates and the roles of one negotiation agree: each verb is offered exactly where the same
-- negotiation found its folder, or UIDPLUS for the permanent delete, and the archive that the
-- capabilities name is the archive role.
pub negotiate_gates :
    (server : Server) (allow : Bool) (capabilities : List Text) (n : Negotiated)
    → server.capability ≡ ok capabilities
    → (negotiate server allow).0 ≡ ok n
    → Agrees capabilities n
negotiate_gates server allow capabilities n e h =
    with_mailboxes-Agrees server allow capabilities server.list_mailboxes n
      (ap (λ p. p.0) (sym (negotiate_known server allow capabilities e)) ∙ h)

find-any : (p : ImapMailbox → Bool) (xs : List ImapMailbox) → any p xs ≡ false → find p xs ≡ none
unfolding any find
find-any p [] h = refl
find-any p (x ∷ xs) h = ground (arith, find-any p xs)

any_found :
    (p : ImapMailbox → Bool) (xs : List ImapMailbox)
    → any p xs ≡ true
    → (m : ImapMailbox) × (find p xs ≡ some m)
unfolding any find
any_found p [] h = cc
any_found p (x ∷ xs) h = elim (Bool-cases (p x)) [
  | inl e ↦ (x, rw e refl)
  | inr e ↦ let (m, f) = any_found p xs (ground arith) in (m, rw e f)
]

created_by :
    (capabilities : List Text) (mailboxes : List ImapMailbox)
    (r : Result MailError (Option Text) × List Text)
    → (with_archive capabilities mailboxes r).1 ≡ r.1
created_by capabilities mailboxes (ok archive, created) = refl
created_by capabilities mailboxes (err e, created) = refl

absent_asks :
    (server : Server) (allow : Bool)
    → (or_create server allow none).1 ≡ (if allow then default_archive_folder_name ∷ [] else [])
unfolding or_create
absent_asks server true = refl
absent_asks server false = refl

or_create_asks :
    (server : Server) (allow : Bool) (mailboxes : List ImapMailbox)
    → (or_create server allow (find is_archive_mailbox mailboxes)).1 ≡ (
        if any is_archive_mailbox mailboxes
        then []
        else if allow
        then default_archive_folder_name ∷ []
        else [])
unfolding or_create
or_create_asks server allow mailboxes = elim (Bool-cases (any is_archive_mailbox mailboxes)) [
  | inl there ↦
      let (m, found) = any_found is_archive_mailbox mailboxes there in
      rw (there, or_create, found) refl
  | inr absent ↦
      rw (absent, or_create, find-any is_archive_mailbox mailboxes absent)
        (absent_asks server allow)
]

-- A negotiation asks the server to create one folder at most, the archive, and only where that is
-- allowed and no folder of the list is an archive.
pub negotiate_creates :
    (server : Server) (allow : Bool) (capabilities : List Text) (mailboxes : List ImapMailbox)
    → server.capability ≡ ok capabilities
    → server.list_mailboxes ≡ ok mailboxes
    → (negotiate server allow).1 ≡ (
        if any is_archive_mailbox mailboxes
        then []
        else if allow
        then default_archive_folder_name ∷ []
        else [])
unfolding resolve_archive_folder
negotiate_creates server allow capabilities mailboxes e l =
    ap (λ p. p.1)
      (negotiate_known server allow capabilities e
        ∙ ap (with_mailboxes server allow capabilities) l)
    ∙ created_by capabilities mailboxes (resolve_archive_folder server mailboxes allow)
    ∙ or_create_asks server allow mailboxes

settled :
    (capabilities : List Text) (mailboxes : List ImapMailbox) (e : MailError)
    → (with_archive capabilities mailboxes
        (after_create (err e), default_archive_folder_name ∷ [])).0
      ≡ (if is_message_verdict e then ok (verdicts capabilities mailboxes none) else err e)
unfolding after_create
settled capabilities mailboxes e = elim (Bool-cases (is_message_verdict e)) [
  | inl v ↦ rw v refl
  | inr v ↦ rw v refl
]

-- Where the archive is to be created and the server does not create it, a verdict about the folder
-- settles that there is no archive, and a failure of the connection is the negotiation's failure: it
-- is never remembered as a missing folder.
pub negotiate_refused :
    (server : Server) (capabilities : List Text) (mailboxes : List ImapMailbox) (e : MailError)
    → server.capability ≡ ok capabilities
    → server.list_mailboxes ≡ ok mailboxes
    → any is_archive_mailbox mailboxes ≡ false
    → server.create_mailbox default_archive_folder_name ≡ err e
    → (negotiate server true).0
      ≡ (if is_message_verdict e then ok (verdicts capabilities mailboxes none) else err e)
unfolding resolve_archive_folder or_create
negotiate_refused server capabilities mailboxes e c l absent refused =
    ap (λ p. p.0)
      (negotiate_known server true capabilities c ∙ ap (with_mailboxes server true capabilities) l)
    ∙ ap (λ o. (with_archive capabilities mailboxes (or_create server true o)).0)
        (find-any is_archive_mailbox mailboxes absent)
    ∙ ap
        (λ r.
          (with_archive capabilities mailboxes
            (after_create r, default_archive_folder_name ∷ [])).0)
        refused
    ∙ settled capabilities mailboxes e
