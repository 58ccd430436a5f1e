-- ===== src/Receipts.antt =====
-- src/receipts/mod.rs: receipts. Issue makes one from a verifier's response, Admit records it.
pub mod Issue
pub mod Admit
pub mod Frozen
pub mod Bound
pub mod Admitted
pub mod Issued
pub mod Tests
