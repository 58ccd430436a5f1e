-- ===== src/Deps.antt =====
-- src/deps/mod.rs: run-scoped dependency resolution.
pub mod Service
pub mod Soundness
pub mod Snapshot
pub mod Pinned
pub mod Reason
pub mod Tests
