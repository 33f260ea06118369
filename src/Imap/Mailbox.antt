-- ===== src/Imap/Mailbox.antt =====
-- The operations of `ImapProvider` in crates/lagoon-mail/src/imap/provider.rs that act on messages: the
-- session they share, the resolution of ids and folders, and each operation under its name.
pub mod Session
pub mod Resolve
pub mod Operations
pub mod Fetch
pub mod Kept
pub mod Stale
