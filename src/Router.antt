-- ===== src/Router.antt =====
-- crates/core/src/application/mcp_router.rs. `Responses` has the JSON-RPC answers that the gateway
-- writes itself, `Augment` the changes to upstream answers, and this file the routing.
pub mod Responses
pub mod Augment
pub mod Route
mod Tests
