-- ===== src/Sync.antt =====
-- crates/sg-sync: the payload of a transfer, its merge, and the sealed transfer.
pub mod Payload
pub mod Merge
pub mod Transfer
pub mod Pairing
