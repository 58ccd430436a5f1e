-- ===== src/Budget.antt =====
-- src/budget/mod.rs: attempt budgets, retry decisions and narrowed retries.
pub mod Status
pub mod Lineage
pub mod Retry
pub mod Narrow
pub mod Pending
pub mod Carried
pub mod Limits
pub mod Failed
pub mod Decisions
pub mod Narrowed
pub mod Tests
