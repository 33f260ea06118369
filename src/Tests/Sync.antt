-- ===== src/Tests/Sync.antt =====
-- A pull that finds one archived message gone, rounds of an engine, and a supervisor.
use lagoon_email.Prelude.{
  ℕ, ◌≤◌, Text, codes, text_eq, ◌≡◌, refl, subst, sym, Bool, true, false, some, none, Option, List,
  [], ◌∷◌, ◌++◌, ok, err, arith, any, find, filter, contains, pos,
}
use lagoon_email.Store.Table.{
  Account, Content, Header, Db, Store, missing_body_key, ◌>>=◌, for_each, execute, update_where,
}
use lagoon_email.Store.Headers.{keyed, upsert_header, seal_snippet}
use lagoon_email.Store.Accounts.{has_id, update_sync_state, update_accounts, update_health}
use lagoon_email.Store.Actions.Claim.{steady}
use lagoon_email.Sync.ChangeSet.{MailChangeSet, RemoteHeader}
use lagoon_email.Sync.Apply.{
  apply, land, reset_stage, new_header, fill_stage, reconcile_stage, replies_stage, advance,
  merge_into,
}
use lagoon_email.Sync.Apply.Isolation.{of_account, apply-keeps_other_accounts}
use lagoon_email.Sync.Apply.Filed.{IsFiled, apply-IsFiled}
use lagoon_email.Sync.Apply.Carry.{MayDelete}
use lagoon_email.Sync.Apply.Deletion.{apply-deletes_only_removable}
use lagoon_email.Sync.Apply.Owed.{owed}
use lagoon_email.Sync.Apply.CursorLast.{apply_stops_before_cursor, apply_moves_cursor}
use lagoon_email.Prelude.{length, ◌≤◌, ◌*◌}
use lagoon_email.Sync.Backoff.{second, pause, backoff_seconds, backoff_seconds_bounds}
use lagoon_email.Sync.Triage.{triage_backlog_limit, triage_per_round, Advisor, triage}
use lagoon_email.Sync.Triage.Laws.{triage_bounds}
use lagoon_email.Sync.Round.{World, Engine, round, get_or, protocol}
use lagoon_email.Sync.Round.Failures.{counted, Reports, round_counts}
use lagoon_email.Sync.Round.Health.{round-keeps_other_accounts}
use lagoon_email.Sync.Supervisor.{new, Supervisor, start_all, stop}
use lagoon_email.Sync.Supervisor.Loops.{loops, count, start_all-loops}
use lagoon_email.Tests.Store.{account, nowhere, two_accounts}

abbrev content : Content
content = record {
  thread_id = codes "t";
  from_address = codes "a@b.example";
  from_name = none;
  subject = none;
  snippet_cipher = none;
  received_at = codes "2026-01-01";
  list_unsubscribe = false;
  message_id_header = none;
  in_reply_to = none;
  references = none;
  unsubscribe_links = [];
}

abbrev mail : ℕ → Text → Bool → Header
mail a r archived = record {
  account_id = a;
  remote_id = r;
  content = content;
  remote_uid = some (pos 3);
  is_read = false;
  is_archived = archived;
  is_deleted = false;
  is_sent = false;
}

abbrev stocked : Db
stocked = record two_accounts {
  headers = mail 1 (codes "m1") false ∷ mail 1 (codes "m2") true ∷ mail 2 (codes "m1") false ∷ [];
}

abbrev remote : RemoteHeader
remote = record {
  remote_id = codes "m3";
  remote_uid = some (pos 9);
  thread_id = codes "t3";
  from_address = codes "c@d.example";
  from_name = none;
  subject = none;
  snippet = none;
  received_at = codes "2026-01-02";
  is_read = false;
  message_id_header = none;
  in_reply_to = none;
  references = none;
  list_unsubscribe = false;
  unsubscribe_links = [];
}

abbrev pull : MailChangeSet
pull = record {
  cursor = record { uid_validity = some (pos 1); last_uid = some (pos 9) };
  reset_required = false;
  upserts = remote ∷ [];
  replied_message_ids = [];
  inbox_remote_ids = some (codes "m3" ∷ []);
  inbox_uids = none;
  archived_remote_ids = some (codes "m1" ∷ []);
  trashed_remote_ids = some [];
  removed_remote_ids = [];
  waited = false;
}

abbrev jammed : Store
jammed = record { db = stocked; faults = false ∷ true ∷ [] }

apply-keeps_other_accounts_example :
    filter (of_account 2) (apply 1 none (codes "now") pull nowhere jammed).1.db.headers
    ≡ filter (of_account 2) stocked.headers
apply-keeps_other_accounts_example =
    apply-keeps_other_accounts 1 2 none (codes "now") pull nowhere jammed (λ e. omega (arith, e))

m2-IsFiled : IsFiled 1 (codes "m2") stocked.headers
unfolding any text_eq
m2-IsFiled = record { there = refl; filed = refl }

apply-IsFiled_example :
    IsFiled 1 (codes "m2") (apply 1 none (codes "now") pull nowhere (steady stocked)).1.db.headers
apply-IsFiled_example =
    apply-IsFiled 1 (codes "m2") none (codes "now") pull nowhere (steady stocked) m2-IsFiled

some_same : (s t : List Text) → ◌≡◌ {A = Option (List Text)} (some s) (some t) → s ≡ t
some_same s t e = cc

-- the archive holds m1, so that it may not be deleted
m1_held :
    (inbox : List Text) → pull.inbox_remote_ids ≡ some inbox → ¬ MayDelete pull inbox (codes "m1")
unfolding contains text_eq
m1_held inbox e may = cc (
    subst (λ l. contains (l ++ codes "m1" ∷ []) (codes "m1") ≡ false)
      (sym (some_same (codes "m3" ∷ []) inbox e)) may)

apply-deletes_only_removable_example :
    any
      (keyed 1 (codes "m1"))
      (apply 1 none (codes "now") pull nowhere (steady stocked)).1.db.headers
    ≡ true
unfolding any text_eq
apply-deletes_only_removable_example =
    apply-deletes_only_removable 1 (codes "m1") none (codes "now") pull nowhere (steady stocked)
      refl m1_held refl

abbrev texted : MailChangeSet
texted = record pull { upserts = record remote { snippet = some (codes "hi") } ∷ [] }

apply_stops_before_cursor_example :
    ((apply 1 none (codes "now") texted nowhere (steady stocked)).0 ≡ err missing_body_key)
    × ((apply 1 none (codes "now") texted nowhere (steady stocked)).1.db.accounts
        ≡ stocked.accounts)
unfolding land ◌>>=◌ reset_stage for_each upsert_header seal_snippet new_header
apply_stops_before_cursor_example =
    apply_stops_before_cursor 1 none (codes "now") texted nowhere (steady stocked) missing_body_key
      refl

abbrev quiet : MailChangeSet
quiet = record pull { upserts = []; inbox_remote_ids = none }

abbrev synced : Account
synced = record (account 1) {
  updated_at = 9;
  sync_state = record nowhere { cursor = quiet.cursor };
  sync_status = codes "ok";
  last_sync_at = some (codes "now");
}

apply_moves_cursor_example :
    ((owed 1 none quiet (steady stocked)).0 ≡ ok tt)
    × (synced.sync_state.cursor ≡ quiet.cursor)
    × (synced.sync_state.other_keys ≡ nowhere.other_keys)
    × (synced.sync_status ≡ codes "ok")
    × (synced.last_sync_error ≡ none)
    × (synced.last_sync_at ≡ some (codes "now"))
unfolding apply ◌>>=◌ land reset_stage for_each fill_stage reconcile_stage replies_stage advance
    update_sync_state update_accounts execute update_health find update_where merge_into
apply_moves_cursor_example =
    apply_moves_cursor 1 none (codes "now") quiet nowhere (steady stocked) synced refl refl

abbrev mute : Advisor
mute = record {
  configured = true;
  store_opens = true;
  has_advice = λ r. some false;
  classify = λ targets. [];
  store_reopens = true;
  stores = λ c. true;
  meters = λ c. true;
}

abbrev world : World
world = record {
  store_opens = true;
  open_credentials = some (λ sealed. some sealed);
  make = λ c. some (λ cursor. err (protocol (codes "bad")));
  body_key = λ t. ok t;
  advisor = none;
  now = codes "now";
  byte = 0;
}

abbrev engine : Engine
engine = record { store = steady stocked; failures = (1, 2) ∷ []; backlogs = [] }

round_counts_example :
    (get_or 0 1 (round world 1 engine).1.failures
      ≡ counted (round world 1 engine).0 (get_or 0 1 engine.failures))
    × Reports (round world 1 engine).0 (get_or 0 1 (round world 1 engine).1.failures)
    × (get_or 0 2 (round world 1 engine).1.failures ≡ get_or 0 2 engine.failures)
round_counts_example = round_counts world 1 2 engine (λ e. omega (arith, e))

round-keeps_other_accounts_example :
    (filter (has_id 2) (round world 1 engine).1.store.db.accounts
      ≡ filter (has_id 2) stocked.accounts)
    × (filter (of_account 2) (round world 1 engine).1.store.db.headers
        ≡ filter (of_account 2) stocked.headers)
round-keeps_other_accounts_example =
    round-keeps_other_accounts world 1 2 engine (λ e. omega (arith, e))

abbrev always : ℕ → Bool
always a = true

abbrev running : Supervisor
running = record { tasks = (1, false) ∷ []; detached = [] }

once : (a : ℕ) → count a (1 ∷ 2 ∷ []) ≤ 1
once a = ground arith

triage_bounds_example :
    (length (triage (some mute) (remote ∷ []) []).backlog ≤ triage_backlog_limit)
    × (length (triage (some mute) (remote ∷ []) []).asked ≤ triage_per_round)
triage_bounds_example = triage_bounds (some mute) (remote ∷ []) [] (omega arith)

apart : (a : ℕ) → count a (1 ∷ 2 ∷ []) ≤ 1
apart a = ground arith

start_all-loops_example :
    ((a : ℕ) → loops a (start_all always (some (1 ∷ 2 ∷ [])) new) ≤ 1)
    × ((a : ℕ) → loops a (stop (start_all always (some (1 ∷ 2 ∷ [])) new)) ≡ 0)
start_all-loops_example = start_all-loops always (1 ∷ 2 ∷ []) apart

backoff_seconds_bounds_example :
    (second ≤ backoff_seconds 4 255)
    × (backoff_seconds 4 255 ≤ 360 * second)
    × (4 * (pause 4 * second) ≤ 5 * backoff_seconds 4 255)
    × (5 * backoff_seconds 4 255 ≤ 6 * (pause 4 * second))
backoff_seconds_bounds_example = backoff_seconds_bounds 4 255 (omega arith)
