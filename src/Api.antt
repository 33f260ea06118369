-- ===== src/Api.antt =====
-- crates/lagoon-api: the small components that a request meets first, `Uuid` (uuid.rs), `Guard`
-- (http/guard.rs, and `normalize_host` of config.rs) and `Query` (http/query.rs).
pub mod Uuid
pub mod Guard
pub mod Query
pub mod Send
