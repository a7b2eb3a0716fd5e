-- ===== src/Setup.antt =====
-- The set-up wizard: its data in crates/core/src/domain/setup.rs, its use case in
-- application/first_run_setup.rs and its environment file in crates/platform/src/setup/env_writer.rs.
pub mod Model
pub mod Writer
pub mod Wizard
pub mod Existing
pub mod Written
pub mod Finalized
mod Tests
