-- ===== src/Imap.antt =====
-- crates/lagoon-mail/src/imap: the IMAP protocol layer. `Parser` reads response lines, `Quoting` writes
-- command arguments, `Capabilities` finds roles, `Membership` walks folders. The proofs are below them.
pub mod Quoting
pub mod Parser
pub mod Capabilities
pub mod Membership
pub mod Client
pub mod Mailbox
