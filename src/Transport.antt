-- ===== src/Transport.antt =====
-- crates/sg-transport: quoting, framing, errors, the probe, host keys and the receive loop.
pub mod Quote
pub mod Frame
pub mod Probe
pub mod Error
pub mod HostKey
pub mod Receive
