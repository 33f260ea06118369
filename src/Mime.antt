-- ===== src/Mime.antt =====
-- crates/lagoon-mail/src/mime: what the other parts need of the message format.
pub mod Headers
pub mod Addresses
pub mod Builder
pub mod Recipients
pub mod Parameters
pub mod Charset
pub mod Words
