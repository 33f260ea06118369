-- ===== src/Imap/Membership/Lost.antt =====
-- What a session that is lost during the walk leaves.
use lagoon_email.Prelude.{ℕ, codes, ◌≡◌, refl, ap, ◌∙◌, Text, true, Option, none, some, ok, err}
use lagoon_email.Mail.Error.{MailError}
use lagoon_email.Imap.Capabilities.{FolderRoles}
use lagoon_email.Imap.Membership.{
  nothing_known, Peer, of_selected, collect_folder, Provider, drop_connection, is_fatal,
  ensure_client, settle_folder, collect_membership, collect_role, walk, walk_or_list, found_walk,
  with_client, finish, remote_membership,
}

collect_membership_lost :
    (peer : Peer) (budget : ℕ) (folder : Text) (p : Provider) (e : MailError)
    → peer.select folder ≡ err e
    → is_fatal e ≡ true
    → collect_membership peer budget folder p ≡ (none, true, record p { selected = none })
unfolding collect_membership collect_folder
collect_membership_lost peer budget folder p e refused fatal =
    ap (λ r. settle_folder (of_selected peer folder budget p.selected r) p) refused
    ∙ ap (λ dead. (none, dead, record p { selected = none })) fatal

collect_role_dead :
    (peer : Peer) (budget : ℕ) (role : Option Text) (p : Provider)
    → collect_role peer budget true role p ≡ (none, true, p)
unfolding collect_role
collect_role_dead peer budget none p = refl
collect_role_dead peer budget (some folder) p = refl

walk_lost :
    (peer : Peer) (budget : ℕ) (roles : FolderRoles) (p : Provider) (e : MailError)
    → peer.select (codes "INBOX") ≡ err e
    → is_fatal e ≡ true
    → walk peer budget roles p ≡ ((nothing_known, roles, true), record p { selected = none })
unfolding walk nothing_known
walk_lost peer budget roles p e refused fatal =
    rw
      (
        collect_membership_lost peer budget (codes "INBOX") p e refused fatal,
        collect_role_dead peer budget roles.archive (record p { selected = none }),
        collect_role_dead peer budget roles.trash (record p { selected = none }),
      )
      refl

-- Where the session is lost, or the credentials refused, while the inbox is opened, no folder is
-- known, none of the others is asked for, and the provider is left without a connection and without
-- roles, so that the next walk starts from a new session.
pub remote_membership_lost :
    (peer : Peer) (budget : ℕ) (p q : Provider) (roles : FolderRoles) (e : MailError)
    → p.roles ≡ some roles
    → ensure_client peer p ≡ (ok tt, q)
    → peer.select (codes "INBOX") ≡ err e
    → is_fatal e ≡ true
    → remote_membership peer budget p ≡ (nothing_known, drop_connection q)
unfolding remote_membership walk_or_list drop_connection
remote_membership_lost peer budget p q roles e cached ready refused fatal =
    ap (λ c. finish c (with_client peer budget c (ensure_client peer p))) cached
    ∙ ap (λ r. finish (some roles) (with_client peer budget (some roles) r)) ready
    ∙ ap (λ w. finish (some roles) (found_walk w)) (walk_lost peer budget roles q e refused fatal)
