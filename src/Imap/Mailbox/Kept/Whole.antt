-- ===== src/Imap/Mailbox/Kept/Whole.antt =====
-- What whole operations keep: a rule about the commands that were sent and the capabilities that are
-- remembered, for every operation that changes a mailbox.
use lagoon_email.Prelude.{
  Text, codes, text_eq, Bool, true, false, Option, none, some, List, [], ◌∷◌, Result, ok, err, ℤ,
  contains, ◌≡◌, refl, if◌then◌else◌, trim,
}
use lagoon_email.Mail.Error.{
  MailError, is_message_verdict, is_auth_failed, message_gone_kind, MailErrorKind,
}
use lagoon_email.Imap.Quoting.{quoted}
use lagoon_email.Imap.Capabilities.{FolderRoles, default_archive_folder_name}
use lagoon_email.Imap.Membership.{is_fatal}
use lagoon_email.Imap.Client.{
  Command, Mark, is_ok, choose, expunge_uids, add_flags, Link, World, Imap, ◌>>◌, execute,
  send_line, line_of, perform, lift, log_in, append_message,
}
use lagoon_email.Imap.Client.Commands.{
  capability, all_uids, uid_expunge_many, append, select, login, send_id, list_mailboxes,
  disconnect, logout, create_mailbox, forget, fall_back, judged, try_plain, plain_login,
}
use lagoon_email.Imap.Mailbox.Session.{
  inbox, note_selected, hang_up, disconnect_if, connect, open_session, or_closed, ensure_session,
  ensure_live, tidy, with_body, with_session, enter, select_inbox, in_inbox, with_inbox, live,
  known_or_listed, unselect_if_gone, ensure_roles, resolve_trash, resolve_sent, after_create,
  named_or_created, resolve_archive, archive_folder,
}
use lagoon_email.Imap.Mailbox.Resolve.{resolve_uid, move_safely, remove_one}
use lagoon_email.Imap.Mailbox.Operations.{
  set_read, file_into, bring_back, archive, unarchive, trash, restore_from_trash, purge_one,
  purge_in, permanently_delete, flag_all, purge_all, empty_folder, empty_trash, move_message,
  append_in, append_to_sent, without_uidplus, Operation, set_read_of, archive_of, unarchive_of,
  trash_of, restore_of, purge_of, empty, move_of, append_sent, after, after_all, resolve_or_gone,
}
use lagoon_email.Imap.Mailbox.Kept.{
  is_ordinary, Grants, Kept, Keeps, bind-Keeps, execute-Keeps, perform-Keeps, capability-Keeps,
  if-Keeps, resolve_uid-Keeps, then_remove-Keeps, move_safely-Keeps, move_uid_into-Keeps,
  resolve_or_gone-Keeps, mark-Keeps, create-Keeps,
}

abbrev pub is_harmless : Command → Bool
is_harmless (expunge_uids uids) = false
is_harmless (add_flags uid flags) = is_ordinary (add_flags uid flags)
is_harmless _ = true

abbrev pub Log : Type 0
Log = List (Mark × Command)

pub record Rule {S : Type 0} (link : Link S) : Type 1 where
  pub rule : Log → Option (List Text) → Type 0
  pub granted : List Text → Type 0
  pub reset : (log : Log) (names : Option (List Text)) → rule log names → rule log none
  pub step :
      (c : Command)
      → is_harmless c ≡ true
      → (at : Mark) (log : Log) (names : Option (List Text)) → rule log names
      → rule ((at, c) ∷ log) names
  pub capability_keeps :
      (w : World S)
      → rule w.log w.cached_capabilities
      → rule (capability link w).1.log (capability link w).1.cached_capabilities
        × Grants granted (capability link w).0
  pub remove_keeps :
      (names : List Text)
      → granted names
      → contains names (codes "UIDPLUS") ≡ true
      → (uid : ℤ) (w : World S) → rule w.log w.cached_capabilities
      → rule (remove_one link uid w).1.log (remove_one link uid w).1.cached_capabilities
  pub purge_keeps :
      (names : List Text)
      → granted names
      → contains names (codes "UIDPLUS") ≡ true
      → (uids : List ℤ) (w : World S) → rule w.log w.cached_capabilities
      → rule
          ((flag_all link uids >> uid_expunge_many link uids) w).1.log
          ((flag_all link uids >> uid_expunge_many link uids) w).1.cached_capabilities

pub ordinary-is_harmless : (c : Command) → is_ordinary c ≡ true → is_harmless c ≡ true
ordinary-is_harmless (choose mailbox) e = refl
ordinary-is_harmless (expunge_uids uids) e = e
ordinary-is_harmless (add_flags uid flags) e = e
ordinary-is_harmless _ e = refl

module _ {S : Type 0} (link : Link S) (law : Rule link) where
  abbrev pub kept : Kept link
  kept = record {
    holds = λ w. law.rule w.log w.cached_capabilities;
    granted = law.granted;
    ordinary = λ c e w r s h.
        law.step c (ordinary-is_harmless c e) (w.at, is_ok r) w.log w.cached_capabilities h;
    capability_keeps = law.capability_keeps;
    remove_keeps = law.remove_keeps;
  }

  abbrev pub Holds : World S → Type 0
  Holds w = law.rule w.log w.cached_capabilities

  abbrev pub Follows : {A : Type 0} → Imap S A → Type 0
  Follows m = Keeps link kept m

  pub if-Holds :
      {A : Type 0} (b : Bool) (r t : Result MailError A × World S)
      → Holds r.1
      → Holds t.1
      → Holds (if b then r else t).1
  if-Holds true r t h k = h
  if-Holds false r t h k = k

  if-World : (b : Bool) (v w : World S) → Holds v → Holds w → Holds (if b then v else w)
  if-World true v w h k = h
  if-World false v w h k = k

  select-Follows : (folder : Text) → Follows (select link folder)
  unfolding select execute
  select-Follows folder =
      bind-Keeps link kept (execute link (choose folder)) _ chosen_one (λ _ w h. h)
    where
      chosen_one : Follows (execute link (choose folder))
      chosen_one w h = sent (line_of link.decimal (choose folder))
        where
          sent : (line : Result MailError Text) → Holds (send_line link (choose folder) line w).1
          sent (err f) = h
          sent (ok line) =
              law.step (choose folder) refl (w.at, is_ok (link.execute line w.connection).0) w.log
                w.cached_capabilities h

  enter-Follows : (folder : Text) → Follows (enter link folder)
  unfolding enter
  enter-Follows folder =
      bind-Keeps link kept (select link folder) _ (select-Follows folder) (λ _ w h. h)

  Holds-disconnect : (w : World S) → Holds w → Holds (disconnect link w)
  unfolding disconnect
  Holds-disconnect w h = law.reset w.log w.cached_capabilities h

  Holds-logout : (w : World S) → Holds w → Holds (logout link w)
  unfolding logout
  Holds-logout w h = Holds-disconnect _ (execute-Keeps link kept _ refl w h)

  Holds-hang_up : (w : World S) → Holds w → Holds (hang_up link w)
  unfolding hang_up
  Holds-hang_up w h = closed w.provider.client
    where
      closed : (client : Option Bool) → Holds (disconnect_if link client w)
      closed none = h
      closed (some c) = Holds-disconnect w h

  connect-Follows : Follows (connect link)
  connect-Follows w h = law.reset w.log w.cached_capabilities h

  login-Follows : Follows (login link)
  unfolding login forget
  login-Follows =
      bind-Keeps link kept (lift (quoted link.username)) _ (λ w h. h)
        (λ _.
          bind-Keeps link kept (lift (quoted link.secret)) _ (λ w h. h)
            (λ _.
              bind-Keeps link kept (try_plain link) _ plain
                (λ _ w h. law.reset w.log w.cached_capabilities h)))
    where
      judged-Holds :
          (r : Result MailError (Unit {0}) × World S) → Holds r.1 → Holds (judged link r).1
      judged-Holds (r, v) k = k

      fallen : (r : Result MailError (Unit {0}) × World S) → Holds r.1 → Holds (fall_back link r).1
      fallen (ok u, v) k = k
      fallen (err e, v) k =
          if-Holds (is_auth_failed e) (err e, v)
            (judged link (perform link (log_in link.username link.secret) v)) k
            (judged-Holds (perform link (log_in link.username link.secret) v)
              (perform-Keeps link kept (log_in link.username link.secret) refl v k))

      plain : Follows (try_plain link)
      plain w h =
          fallen (perform link (plain_login link) w)
            (perform-Keeps link kept (plain_login link) refl w h)

  send_id-Follows : Follows (send_id link)
  unfolding send_id
  send_id-Follows = capability-Keeps link kept _ (λ names g.
      if-Keeps link kept (contains names (codes "ID")) _ _ (λ _. perform-Keeps link kept _ refl)
        (λ w h. h))

  ensure_live-Follows : Follows (ensure_live link)
  unfolding ensure_live ensure_session open_session
  ensure_live-Follows w h =
      if-Holds (live link w) (ok tt, w) _ h
        (if-Holds w.provider.has_credentials (or_closed link (opening w)) _
          (closed (opening w) (opened w h)) h)
    where
      opening : Imap S (Unit {0})
      opening = connect link >> (login link >> send_id link)

      opened : Follows opening
      opened =
          bind-Keeps link kept (connect link) _ connect-Follows
            (λ _. bind-Keeps link kept (login link) _ login-Follows (λ _. send_id-Follows))

      closed : (r : Result MailError (Unit {0}) × World S) → Holds r.1 → Holds (or_closed link r).1
      closed (ok u, v) k = k
      closed (err e, v) k =
          if-World (is_message_verdict e) _ _ (Holds-logout v k) (Holds-disconnect v k)

  Holds-tidy : {A : Type 0} (r : Result MailError A × World S) → Holds r.1 → Holds (tidy link r).1
  Holds-tidy (ok a, w) h = h
  Holds-tidy (err e, w) h = if-World (is_fatal e) _ _ (Holds-hang_up w h) (forgotten e.kind)
    where
      forgotten : (kind : MailErrorKind) → Holds (unselect_if_gone link kind w)
      forgotten message_gone_kind = h
      forgotten _ = h

  with_session-Follows :
      {A : Type 0} (body : Imap S A) → Follows body → Follows (with_session link body)
  unfolding with_session
  with_session-Follows body q w h = run (ensure_live link w) (ensure_live-Follows w h)
    where
      run :
          (r : Result MailError (Unit {0}) × World S) → Holds r.1 → Holds (with_body link body r).1
      run (ok u, v) k = Holds-tidy (body v) (q v k)
      run (err e, v) k = k

  with_inbox-Follows :
      {A : Type 0} (body : Imap S A) → Follows body → Follows (with_inbox link body)
  unfolding with_inbox select_inbox
  with_inbox-Follows body q =
      with_session-Follows (select_inbox link >> body)
        (bind-Keeps link kept (select_inbox link) _ selected (λ _. q))
    where
      selected : Follows (select_inbox link)
      selected w h =
          if-Holds (in_inbox link w.provider.selected) (ok tt, w) _ h (enter-Follows inbox w h)

  ensure_roles-Follows : Follows (ensure_roles link)
  unfolding ensure_roles list_mailboxes
  ensure_roles-Follows w h = known w.provider.roles
    where
      listed : Follows (list_mailboxes link)
      listed = bind-Keeps link kept (execute link _) _ (execute-Keeps link kept _ refl) (λ _ v k. k)

      known : (roles : Option FolderRoles) → Holds (known_or_listed link roles w).1
      known (some roles) = h
      known none =
          bind-Keeps link kept (with_session link (list_mailboxes link)) _
            (with_session-Follows _ listed) (λ _ v k. k) w h

  resolve_trash-Follows : Follows (resolve_trash link)
  unfolding resolve_trash
  resolve_trash-Follows =
      bind-Keeps link kept (ensure_roles link) _ ensure_roles-Follows (λ _ w h. h)

  resolve_sent-Follows : Follows (resolve_sent link)
  unfolding resolve_sent
  resolve_sent-Follows =
      bind-Keeps link kept (ensure_roles link) _ ensure_roles-Follows (λ _ w h. h)

  archive_folder-Follows : Follows (archive_folder link)
  unfolding archive_folder resolve_archive
  archive_folder-Follows =
      bind-Keeps link kept (resolve_archive link) _
        (bind-Keeps link kept (ensure_roles link) _ ensure_roles-Follows
          (λ roles. named roles.archive))
        (λ _ w h. h)
    where
      created :
          (r : Result MailError (Unit {0}) × World S) → Holds r.1 → Holds (after_create link r).1
      created (ok u, v) k = k
      created (err e, v) k = if-Holds (is_message_verdict e) _ _ k k

      named : (name : Option Text) → Follows (named_or_created link name)
      named (some name) w h = h
      named none w h = if-Holds w.provider.archive_create_refused _ _ h (
          created (with_session link (create_mailbox link default_archive_folder_name) w)
            (with_session-Follows _ (create-Keeps link kept default_archive_folder_name) w h))

  file_into-Follows : (id folder : Text) → Follows (file_into link id folder)
  file_into-Follows id folder = with_inbox-Follows _ (
      bind-Keeps link kept (resolve_uid link id) _ (resolve_uid-Keeps link kept id)
        (λ uid. move_safely-Keeps link kept uid folder))

  bring_back-Follows : (id folder : Text) → Follows (bring_back link id folder)
  bring_back-Follows id folder = with_session-Follows _ (
      bind-Keeps link kept (enter link folder) _ (enter-Follows folder) (λ _.
        bind-Keeps link kept (resolve_uid link id) _ (resolve_uid-Keeps link kept id) (λ uid.
          bind-Keeps link kept (move_safely link uid inbox) _
            (move_safely-Keeps link kept uid inbox) (λ _ w h. h))))

  without_uidplus-Follows : Follows (without_uidplus link)
  without_uidplus-Follows = bind-Keeps link kept (note_selected link none) _ (λ w h. h) (λ _ w h. h)

  purge_one-Follows : (uid : ℤ) → Follows (purge_one link uid)
  purge_one-Follows uid = capability-Keeps link kept _ (λ names g.
      if-Keeps link kept (contains names (codes "UIDPLUS")) _ _
        (λ e. then_remove-Keeps link kept names uid (note_selected link none) g e (λ w h. h))
        without_uidplus-Follows)

  purge_in-Follows : (id folder : Text) → Follows (purge_in link id folder)
  purge_in-Follows id folder = with_session-Follows _ (
      bind-Keeps link kept (enter link folder) _ (enter-Follows folder) (λ _.
        bind-Keeps link kept (resolve_uid link id) _ (resolve_uid-Keeps link kept id)
          purge_one-Follows))

  purge_all-Follows :
      (names : List Text)
      → law.granted names
      → contains names (codes "UIDPLUS") ≡ true
      → (uids : List ℤ) → Follows (purge_all link uids)
  purge_all-Follows names g e [] w h = h
  purge_all-Follows names g e (u ∷ us) w h =
      bind-Keeps link kept (flag_all link (u ∷ us) >> uid_expunge_many link (u ∷ us)) _
        (law.purge_keeps names g e (u ∷ us)) (λ _ v k. k) w h

  all_uids-Follows : Follows (all_uids link)
  unfolding all_uids
  all_uids-Follows =
      bind-Keeps link kept (execute link _) _ (execute-Keeps link kept _ refl) (λ _ w h. h)

  empty_folder-Follows : (folder : Text) → Follows (empty_folder link folder)
  empty_folder-Follows folder = with_session-Follows _ (
      bind-Keeps link kept (enter link folder) _ (enter-Follows folder) (λ _.
        capability-Keeps link kept _ (λ names g.
          if-Keeps link kept (contains names (codes "UIDPLUS")) _ _
            (λ e.
              bind-Keeps link kept (all_uids link) _ all_uids-Follows (purge_all-Follows names g e))
            without_uidplus-Follows)))

  move_message-Follows :
      (id folder : Text) (create : Bool) → Follows (move_message link id folder create)
  unfolding move_message
  move_message-Follows id folder create =
      if-Keeps link kept (text_eq (trim folder) []) _ _ (λ _ w h. h)
        (with_inbox-Follows _ (
          bind-Keeps link kept (resolve_or_gone link id) _ (resolve_or_gone-Keeps link kept id)
            (move_uid_into-Keeps link kept (trim folder) create)))

  append_in-Follows : (raw folder : Text) → Follows (append_in link raw folder)
  unfolding append
  append_in-Follows raw folder = with_session-Follows _ (
      bind-Keeps link kept (lift (quoted folder)) _ (λ w h. h)
        (λ q w h.
          law.step (append_message folder) refl (w.at, is_ok (link.append q raw w.connection).0)
            w.log w.cached_capabilities h))

  -- Every operation follows the rule, and so does every sequence of them.
  Holds-after : (o : Operation) (w : World S) → Holds w → Holds (after link o w)
  unfolding after set_read archive unarchive trash restore_from_trash permanently_delete empty_trash
      append_to_sent
  Holds-after (set_read_of id is_read) = with_inbox-Follows _ (
      bind-Keeps link kept (resolve_uid link id) _ (resolve_uid-Keeps link kept id)
        (mark-Keeps link kept is_read))
  Holds-after (archive_of id) =
      bind-Keeps link kept (archive_folder link) _ archive_folder-Follows (file_into-Follows id)
  Holds-after (unarchive_of id) =
      bind-Keeps link kept (archive_folder link) _ archive_folder-Follows (bring_back-Follows id)
  Holds-after (trash_of id) =
      bind-Keeps link kept (resolve_trash link) _ resolve_trash-Follows (file_into-Follows id)
  Holds-after (restore_of id) =
      bind-Keeps link kept (resolve_trash link) _ resolve_trash-Follows (bring_back-Follows id)
  Holds-after (purge_of id) =
      bind-Keeps link kept (resolve_trash link) _ resolve_trash-Follows (purge_in-Follows id)
  Holds-after empty =
      bind-Keeps link kept (resolve_trash link) _ resolve_trash-Follows empty_folder-Follows
  Holds-after (move_of id folder create) = move_message-Follows id folder create
  Holds-after (append_sent raw) =
      bind-Keeps link kept (resolve_sent link) _ resolve_sent-Follows (append_in-Follows raw)

  pub Holds-after_all : (os : List Operation) (w : World S) → Holds w → Holds (after_all link os w)
  unfolding after_all
  Holds-after_all [] w h = h
  Holds-after_all (o ∷ os) w h = Holds-after_all os (after link o w) (Holds-after o w h)
