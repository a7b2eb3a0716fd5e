-- ===== src/Plugin.antt =====
-- crates/core/src/application/remote_mcp_container_client.rs: the client of one Plugin MCP
-- Container. The children model the URIs, the schemas and the requests, and prove their laws.
pub mod Uri
pub mod Schema
pub mod Client
pub mod Requests
mod Tests
