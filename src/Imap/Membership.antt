-- ===== src/Imap/Membership.antt =====
-- Folder membership: `collect_folder` of crates/lagoon-mail/src/imap/membership.rs, and
-- `remote_membership_with_budget` of imap/provider.rs with the session that it runs on. What the server
-- answers for a folder is a parameter; sets of ids are lists without their order.
pub mod Complete
pub mod Lost
use lagoon_email.Prelude.{
  ℕ, Text, codes, text_eq, Bool, true, false, not, ◌&&◌, ◌||◌, Option, none, some, List, [], ◌∷◌,
  ◌++◌, Result, ok, err, ℤ, int_eq, ltb, if◌then◌else◌, all, contains, length, trim,
}
use lagoon_email.Mail.Error.{
  MailError, MailErrorKind, unreachable_kind, auth_failed_kind, message_gone_kind, not_configured,
}
use lagoon_email.Imap.Capabilities.{ImapMailbox, MailCapabilities, FolderRoles, discover_roles}

pub record ImapSelected : Type 0 where
  pub mailbox : Text
  pub exists : ℕ

pub record ImapFetchedHeader : Type 0 where
  pub uid : ℤ
  pub message_id : Option Text

pub record FolderMembership : Type 0 where
  pub uids : List ℤ
  pub remote_ids : List Text
  pub uid_by_remote_id : List (Text × ℤ)

-- A folder that is `none` is unknown, which is not the same as empty.
pub record RemoteMembership : Type 0 where
  pub inbox : Option FolderMembership
  pub archive : Option FolderMembership
  pub trash : Option FolderMembership

unfoldable pub nothing_known : RemoteMembership
nothing_known = record { inbox = none; archive = none; trash = none }

-- What the server answers, and how a number is written in decimal.
pub record Peer : Type 0 where
  pub connect : Result MailError (Unit {0})
  pub login : Result MailError (Unit {0})
  pub send_id : Result MailError (Unit {0})
  pub list_mailboxes : Result MailError (List ImapMailbox)
  pub select : Text → Result MailError ImapSelected
  pub all_uids : Text → Result MailError (List ℤ)
  pub headers : Text → List ℤ → Result MailError (List ImapFetchedHeader)
  pub decimal : ℤ → Text

-- `set.contains(&uid)`
unfoldable pub has_uid : List ℤ → ℤ → Bool
has_uid [] uid = false
has_uid (x ∷ xs) uid = int_eq x uid || has_uid xs uid

abbrev pub or_uid : Text → Option Text → Text
or_uid fallback none = fallback
or_uid fallback (some value) = if text_eq (trim value) [] then fallback else trim value

unfoldable pub remote_id_of : Peer → ImapFetchedHeader → Text
remote_id_of peer h = or_uid (codes "uid:" ++ peer.decimal h.uid) h.message_id

-- `BTreeMap::insert`
unfoldable pub put_uid : Text → ℤ → List (Text × ℤ) → List (Text × ℤ)
put_uid r uid [] = (r, uid) ∷ []
put_uid r uid ((q, v) ∷ m) = if text_eq q r then (r, uid) ∷ m else (q, v) ∷ put_uid r uid m

-- the variables of the loop over the headers
pub record Gathered : Type 0 where
  pub seen : List ℤ
  pub remote_ids : List Text
  pub uid_by_remote_id : List (Text × ℤ)

unfoldable pub gather_one : Peer → List ℤ → ImapFetchedHeader → Gathered → Gathered
gather_one peer uids h g =
    if has_uid uids h.uid
    then record {
      seen = h.uid ∷ g.seen;
      remote_ids = remote_id_of peer h ∷ g.remote_ids;
      uid_by_remote_id = put_uid (remote_id_of peer h) h.uid g.uid_by_remote_id;
    }
    else g

unfoldable pub gather : Peer → List ℤ → List ImapFetchedHeader → Gathered → Gathered
gather peer uids [] g = g
gather peer uids (h ∷ hs) g = gather peer uids hs (gather_one peer uids h g)

abbrev pub empty_gathered : Gathered
empty_gathered = record { seen = []; remote_ids = []; uid_by_remote_id = [] }

-- `seen != uids` gives unknown. What is seen is among the uids already.
unfoldable pub if_complete : List ℤ → Gathered → Option FolderMembership
if_complete uids g =
    if all (has_uid g.seen) uids
    then some
        (record { uids = uids; remote_ids = g.remote_ids; uid_by_remote_id = g.uid_by_remote_id })
    else none

abbrev pub of_headers :
    Peer
    → List ℤ
    → Result MailError (List ImapFetchedHeader)
    → Result MailError (Option FolderMembership)
of_headers peer uids (err e) = err e
of_headers peer uids (ok hs) = ok (if_complete uids (gather peer uids hs empty_gathered))

abbrev pub of_uids :
    Peer → Text → ℕ → Result MailError (List ℤ) → Result MailError (Option FolderMembership)
of_uids peer folder budget (err e) = err e
of_uids peer folder budget (ok []) =
    ok (some (record { uids = []; remote_ids = []; uid_by_remote_id = [] }))
of_uids peer folder budget (ok (u ∷ us)) =
    if ltb budget (length (u ∷ us))
    then ok none
    else of_headers peer (u ∷ us) (peer.headers folder (u ∷ us))

abbrev pub of_selected :
    Peer
    → Text
    → ℕ
    → Option ImapSelected
    → Result MailError ImapSelected
    → Result MailError (Option FolderMembership) × Option ImapSelected
of_selected peer folder budget selected (err e) = (err e, selected)
of_selected peer folder budget selected (ok state) = (
  if ltb budget state.exists then ok none else of_uids peer folder budget (peer.all_uids folder),
  some state,
)

unfoldable pub collect_folder :
    Peer
    → Text
    → ℕ
    → Option ImapSelected
    → Result MailError (Option FolderMembership) × Option ImapSelected
collect_folder peer folder budget selected =
    of_selected peer folder budget selected (peer.select folder)

-- `client` is `none` without a session, and says whether the session is connected.
pub record Provider : Type 0 where
  pub client : Option Bool
  pub has_credentials : Bool
  pub selected : Option ImapSelected
  pub capabilities : Option MailCapabilities
  pub roles : Option FolderRoles
  pub archive_create_refused : Bool

unfoldable pub drop_connection : Provider → Provider
drop_connection p = record p { client = none; selected = none; roles = none }

unfoldable pub is_fatal : MailError → Bool
is_fatal e = elim e.kind [ unreachable_kind ↦ true | auth_failed_kind ↦ true | _ ↦ false ]

abbrev pub is_connected : Option Bool → Bool
is_connected none = false
is_connected (some connected) = connected

abbrev pub both :
    Result MailError (Unit {0}) → Result MailError (Unit {0}) → Result MailError (Unit {0})
both (err e) next = err e
both (ok u) next = next

abbrev pub opened : Result MailError (Unit {0}) → Provider → Result MailError (Unit {0}) × Provider
opened (err e) p = (err e, p)
opened (ok u) p = (
  ok u,
  record p {
    client = some true;
    selected = none;
    capabilities = none;
    roles = none;
    archive_create_refused = false;
  },
)

unfoldable pub ensure_client : Peer → Provider → Result MailError (Unit {0}) × Provider
ensure_client peer p =
    if is_connected p.client
    then (ok tt, p)
    else if p.has_credentials
    then opened (both peer.connect (both peer.login peer.send_id)) p
    else (err (not_configured (codes "credentials-missing")), p)

-- a failure of the body of `with_client`
unfoldable pub after_failure : MailError → Provider → Provider
after_failure e p =
    if is_fatal e
    then drop_connection p
    else elim e.kind [ message_gone_kind ↦ record p { selected = none } | _ ↦ p ]

-- A walk: the three folders, the roles that it used, and whether the session died.
abbrev pub Walk : Type 0
Walk = RemoteMembership × FolderRoles × Bool

abbrev pub settle_folder :
    Result MailError (Option FolderMembership) × Option ImapSelected
    → Provider
    → Option FolderMembership × Bool × Provider
settle_folder (ok found, selected) p = (found, false, record p { selected = selected })
settle_folder (err e, selected) p = (none, is_fatal e, record p { selected = none })

unfoldable pub collect_membership :
    Peer → ℕ → Text → Provider → Option FolderMembership × Bool × Provider
collect_membership peer budget folder p =
    settle_folder (collect_folder peer folder budget p.selected) p

-- A folder is asked for only where it has a name and the session lives.
unfoldable pub collect_role :
    Peer → ℕ → Bool → Option Text → Provider → Option FolderMembership × Bool × Provider
collect_role peer budget dead none p = (none, dead, p)
collect_role peer budget true (some folder) p = (none, true, p)
collect_role peer budget false (some folder) p = collect_membership peer budget folder p

unfoldable pub walk : Peer → ℕ → FolderRoles → Provider → Walk × Provider
walk peer budget roles p =
    let (inbox, dead, p1) = collect_membership peer budget (codes "INBOX") p in
    let (archive, dead2, p2) = collect_role peer budget dead roles.archive p1 in
    let (trash, dead3, p3) = collect_role peer budget dead2 roles.trash p2 in
    ((record { inbox = inbox; archive = archive; trash = trash }, roles, dead3), p3)

abbrev pub found_walk : Walk × Provider → Result MailError Walk × Provider
found_walk (w, p) = (ok w, p)

abbrev pub with_list :
    Peer → ℕ → Result MailError (List ImapMailbox) → Provider → Result MailError Walk × Provider
with_list peer budget (err e) p = (err e, after_failure e p)
with_list peer budget (ok mailboxes) p = found_walk (walk peer budget (discover_roles mailboxes) p)

-- The body, on a session that is connected.
unfoldable pub walk_or_list :
    Peer → ℕ → Option FolderRoles → Provider → Result MailError Walk × Provider
walk_or_list peer budget (some roles) p = found_walk (walk peer budget roles p)
walk_or_list peer budget none p = with_list peer budget peer.list_mailboxes p

abbrev pub with_client :
    Peer
    → ℕ
    → Option FolderRoles
    → Result MailError (Unit {0}) × Provider
    → Result MailError Walk × Provider
with_client peer budget cached (err e, p) = (err e, p)
with_client peer budget cached (ok u, p) = walk_or_list peer budget cached p

abbrev pub keep_roles : Option FolderRoles → FolderRoles → Provider → Provider
keep_roles none roles p = record p { roles = some roles }
keep_roles (some cached) roles p = p

-- A failure before the walk leaves everything unknown.
abbrev pub finish :
    Option FolderRoles → Result MailError Walk × Provider → RemoteMembership × Provider
finish cached (err e, p) = (nothing_known, p)
finish cached (ok (membership, roles, dead), p) = (
  membership,
  if dead then drop_connection (keep_roles cached roles p) else keep_roles cached roles p,
)

unfoldable pub remote_membership : Peer → ℕ → Provider → RemoteMembership × Provider
remote_membership peer budget p =
    finish p.roles (with_client peer budget p.roles (ensure_client peer p))
