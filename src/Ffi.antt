-- ===== src/Ffi.antt =====
-- crates/sg-ffi: the view models that the applications draw, and the registry of targets.
pub mod View
pub mod Format
pub mod State
pub mod Plain
pub mod Assess
pub mod Tiles
pub mod Processes
pub mod Snapshot
pub mod Registry
pub mod Spec
pub mod Poll
