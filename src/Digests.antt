-- ===== src/Digests.antt =====
-- src/digests/mod.rs: the digests of envelopes. Envelope is the check on numbers, and Bound the
-- digests of the records that a verdict is bound to.
pub mod Envelope
pub mod Bound
pub mod Numbers
pub mod Order
pub mod Tests
