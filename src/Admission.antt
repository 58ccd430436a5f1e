-- ===== src/Admission.antt =====
-- src/graph/mod.rs: graph admission. Links resolves what the nodes name to indices, Kahn orders them,
-- Cycle and Search walk the dependencies, and Admit puts them together.
pub mod Links
pub mod Kahn
pub mod Cycle
pub mod Search
pub mod Admit
pub mod Tests
