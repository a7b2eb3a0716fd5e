-- ===== src/Tokens.antt =====
-- crates/platform/src/token_store/sqlite.rs: the store of the OAuth tokens. `Grant` has the rows and
-- their texts, `Table` the SQL statements,
-- `Transaction` their sequences, `Store` the state and its schema, and `Issuer` the operations.
pub mod Grant
pub mod Table
pub mod Transaction
pub mod Store
pub mod Issuer
pub mod Changes
pub mod Atomic
pub mod Rows
pub mod Pair
pub mod Rotation
pub mod Recovery
pub mod Cleanup
pub mod Reach
pub mod Spent
pub mod Unary
pub mod Samples
mod Tests
