-- ===== src/Hook.antt =====
-- crates/pulse-hook: the short-lived hook process.
pub mod Payload
pub mod Build
pub mod Dispatch
pub mod Run
