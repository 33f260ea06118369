-- ===== src/Store.antt =====
-- crates/lagoon-api/src/store: the SQLite store that the sync engine and the routes write through.
-- `Table` has the rows and the statements, `Headers`, `Accounts` and `Actions` the operations of
-- write.rs, `Keeps` the rules by which a property of the tables is carried through a statement.
pub mod Table
pub mod Headers
pub mod Accounts
pub mod Actions
pub mod Keeps
pub mod Rows
