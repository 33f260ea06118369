-- ===== src/Sync.antt =====
-- crates/lagoon-api/src/sync/mod.rs: the sync engine. `ChangeSet` is what a pull reports, `Apply`
-- writes it to the store, `Round` is one round for one account, `Backoff` its pauses, `Triage` the
-- advice backlog, `Supervisor` the loops. The proofs are in the modules below these.
pub mod ChangeSet
pub mod Apply
pub mod Backoff
pub mod Triage
pub mod Round
pub mod Supervisor
