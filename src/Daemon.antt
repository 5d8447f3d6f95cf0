-- ===== src/Daemon.antt =====
-- crates/pulse-daemon: the resident daemon.
pub mod Error
pub mod Degraded
pub mod Session
pub mod Connection
pub mod Listener
pub mod Main
pub mod Tasks
pub mod Shutdown
pub mod Serve
