-- ===== src/Examples.antt =====
-- Concrete environments, and the theorems applied in them.
pub mod Worlds
pub mod Streams
pub mod Wire
pub mod Source
pub mod Daemon
pub mod Tasks
pub mod Reads
pub mod Serve
pub mod Hook
pub mod Retried
pub mod Growing
pub mod Marked
pub mod Restart
pub mod Whole
