-- ===== src/Config.antt =====
-- The configuration: crates/platform/src/config.
pub mod Fields
pub mod Entry
pub mod Yaml
pub mod EnvFile
mod Tests
