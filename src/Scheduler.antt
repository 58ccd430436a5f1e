-- ===== src/Scheduler.antt =====
-- src/scheduler/mod.rs: claims on ready nodes, their completion, cancellation and recovery.
pub mod Create
pub mod Claim
pub mod Dispatch
pub mod Granted
pub mod Finish
pub mod Completed
pub mod Gone
pub mod Taken
pub mod Reclaimed
pub mod Freed
pub mod Cancelled
pub mod Shown
pub mod Exclusive
pub mod Effects
pub mod Held
pub mod Steps
pub mod Tests
