-- ===== src/Tests.antt =====
-- The theorems at concrete inputs, one module for each part of the program.
mod Data
mod Transport
mod Rate
mod Store
mod Runtime
mod Sync
mod Collect
mod Ffi
