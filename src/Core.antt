-- ===== src/Core.antt =====
-- crates/sg-core: rates, the live store, the collector and the runtime of one target.
pub mod Rate
pub mod Store
pub mod Collector
pub mod Runtime
