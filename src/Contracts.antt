-- ===== src/Contracts.antt =====
-- src/contracts: the records of the protocol and the rules that each must keep on its own.
pub mod Ids
pub mod Time
pub mod Refs
pub mod Node
pub mod Graph
pub mod Attempt
pub mod View
pub mod Gate
pub mod Packet
pub mod Patch
pub mod Printed
pub mod Valid
pub mod Software
pub mod Authorization
mod Tests
