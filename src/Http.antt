-- ===== src/Http.antt =====
-- crates/platform/src/http/mcp_handlers.rs: the handlers in front of the router. This file has the
-- requests and responses of the axum and http crates, as far as the handlers read them.
pub mod Headers
pub mod Auth
pub mod Responses
pub mod Handlers
pub mod OAuth
pub mod Assets
pub mod Templates
pub mod Laws
pub mod AssetLaws
mod Tests
