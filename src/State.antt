-- ===== src/State.antt =====
-- src/state/mod.rs: the pure reducer.
pub mod Event
pub mod Node
pub mod Acceptance
pub mod Invariant
pub mod Counting
pub mod Views
pub mod Stored
pub mod Run
pub mod Projection
pub mod Replayed
pub mod Seen
pub mod Appended
pub mod Tests
