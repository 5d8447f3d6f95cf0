-- ===== src/Source.antt =====
-- crates/pulse-source: the transcript reader and its probe.
pub mod Error
pub mod Probe
pub mod Settle
pub mod Lines
pub mod Reader
pub mod Adapter
