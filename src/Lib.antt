-- ===== src/Lib.antt =====
-- Lagoon is a mail client: a server (crates/lagoon-api) keeps a SQLite store of several mail accounts
-- in step with their mailboxes and answers a local web front end, over a library of mail protocols
-- (crates/lagoon-mail). This library models the logic of the two crates that decides what happens to
-- stored mail, what is sent, and who may ask.
--
-- The parts, and the file that models each:
-- - Prelude: texts, Boolean tests, lists, results and integers that the other files share.
-- - Store: crates/lagoon-api/src/store/write.rs. `Store.Table` has the tables and the statements,
--   `Store.Headers` the operations on `message_headers` (`upsert_header`, `reconcile_inbox`, ...),
--   `Store.Accounts` those on `accounts` (`update_health`, `set_active`, ...), `Store.Actions` those on
--   `ai_actions` (`claim_send`, `complete_send`, `fail_send`, ...), each under its name in the source.
-- - Sync: crates/lagoon-api/src/sync/mod.rs. `Sync.Apply` is `SyncEngine::apply`, which lands one pull
--   (`Sync.ChangeSet`, of provider/mod.rs) in the store; `Sync.Round` is `SyncEngine::round`, which asks
--   the provider and applies its answer; `Sync.Triage` is the backlog of mail that waits for advice,
--   `Sync.Backoff` the pause behind a failure, `Sync.Supervisor` the loops of the accounts.
-- - Mail: crates/lagoon-mail/src/error.rs, the typed failures of the protocols.
-- - Imap: crates/lagoon-mail/src/imap. `Imap.Quoting` writes arguments (client.rs), `Imap.Parser` reads
--   responses (parser.rs), `Imap.Capabilities` finds folder roles and capabilities (capabilities.rs), and
--   `Imap.Membership` walks the three folders whose membership a pull reports (membership.rs, and
--   `remote_membership_with_budget` of provider.rs).
-- - Imap.Client: crates/lagoon-mail/src/imap/client.rs, each command with its text and the reading of its
--   answer. `Imap.Mailbox` is the rest of imap/provider.rs above it: `Imap.Mailbox.Session` the session and
--   its reconnects, `Imap.Mailbox.Resolve` the ids, `Imap.Mailbox.Operations` what changes a mailbox,
--   `Imap.Mailbox.Fetch` the fetch of one message. What the connection answers to a line is a function of
--   a state of its own, so that a theorem speaks of every server; the state of the model also has the
--   commands that were sent.
-- - Mime: crates/lagoon-mail/src/mime. `Mime.Headers` splits a header block, `Mime.Addresses` a list of
--   addresses, `Mime.Parameters` reads a parameter and `Mime.Words` the encoded words (headers.rs);
--   `Mime.Charset` decodes a body (charset.rs); `Mime.Builder` writes a message (builder.rs), and
--   `Mime.Recipients` collects its recipients.
-- - Smtp: crates/lagoon-mail/src/smtp/client.rs, one delivery: `Smtp` has the sessions and `send_raw`,
--   `Smtp.Stuffing` the framing of the message, `Smtp.Address` the check of an address.
-- - Api: `Api.Uuid` (crates/lagoon-api/src/uuid.rs), `Api.Guard` (http/guard.rs, config.rs) and
--   `Api.Query` (http/query.rs, on bytes).
-- - Api.Send: http/routes_send.rs, what a send request does from the claim of its request id on, over the
--   action log of `Store.Actions`; `Api.Send.Recipients` reads its recipients.
-- - Tests: the theorems at concrete inputs.
--
-- The state of the store is a record of lists of rows. An operation is a function from a store to a
-- result and a store; a statement is atomic, and the store carries for each coming statement whether it
-- fails, so that a theorem about a store speaks of every pattern of failures. Operations are composed in
-- the order of the source, and an error ends an operation where the source has `?`. A `let _ =` of the
-- source keeps going. The writer lock makes the applies of several accounts one after another, so that a
-- round is one function of the engine's state.
--
-- Texts are lists of code points. Numbers are natural numbers; the `i64` values of UIDs are integers.
-- Times are milliseconds, and a clock value is an argument. `usize` has 64 bits where a number is read
-- from a line, and the `u32` count of failures has no bound. No function runs on fuel: every loop of the source is a recursion on a list.
--
-- Not modelled: the text of SQL statements and of JSON values, of which the model has the columns and
-- keys that the code reads back; the connections, the encryption of credentials and snippets, digests,
-- the model behind the advice and the random source, which are parameters; the other routes, the migrations,
-- the rest of the MIME code, the desktop shell and the web front end.

mod Prelude
pub mod Store
pub mod Sync
pub mod Mail
pub mod Imap
pub mod Api
pub mod Mime
pub mod Smtp
pub mod Tests
