-- ===== src/Store.antt =====
-- src/store/mod.rs: the ledger.
pub mod Rows
pub mod Tables
pub mod Writes
pub mod Ops
pub mod Steps
pub mod Changes
pub mod Changed
pub mod Consistency
pub mod AppendOnly
pub mod Logged
pub mod Operations
pub mod Claims
pub mod Tests
