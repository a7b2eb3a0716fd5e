-- ===== src/Container.antt =====
-- The containers: crates/core/src/application/ensure_container.rs, ports/container.rs, the container
-- types of domain/model.rs and domain/errors.rs, and crates/platform/src/container/startup.rs.
pub mod Model
pub mod Error
pub mod Port
pub mod Ensure
pub mod Scope
pub mod Settings
pub mod Orphans
pub mod Startup
pub mod Kept
pub mod Polling
pub mod Verify
pub mod Spared
pub mod Cleaned
pub mod Foreign
pub mod Probed
pub mod Begun
pub mod Reached
pub mod PluginEnv
mod Samples
mod Tests
