-- ===== src/Mail.antt =====
-- crates/lagoon-mail/src: what the protocol layers share.
pub mod Error
