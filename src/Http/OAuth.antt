-- ===== src/Http/OAuth.antt =====
-- The OAuth endpoints: crates/platform/src/http/oauth_handlers.rs, registrar.rs and rate_limit.rs. The
-- flows of the protocol are the oxide_auth crate's.
pub mod Params
pub mod Registrar
pub mod RateLimit
pub mod Refusal
pub mod Authorize
pub mod Token
mod Tests
