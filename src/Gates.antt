-- ===== src/Gates.antt =====
-- src/gates/mod.rs: the packets that stop work which no attempt can settle.
pub mod Packets
pub mod Open
pub mod Context
pub mod Built
pub mod Opened
pub mod Tests
