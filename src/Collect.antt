-- ===== src/Collect.antt =====
-- crates/sg-collect: the built-in collectors, each a source that writes what it parsed.
pub mod Writes
pub mod Load
pub mod Memory
pub mod Pressure
pub mod Tcp
pub mod Cpu
pub mod Network
pub mod DiskIo
pub mod Filesystem
pub mod Process
pub mod Cgroup
pub mod Sensors
pub mod Builtin
pub mod Sound
