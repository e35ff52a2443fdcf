-- ===== src/Model.antt =====
-- crates/sg-model: the data that sources, the scheduler and the transport exchange.
pub mod Ids
pub mod Measure
pub mod Series
pub mod Entity
pub mod Request
pub mod Caps
pub mod Sample
pub mod Source
