-- ===== src/UnitTests.antt =====
-- The unit tests that stand beside the code in crates/*/src, as functions of the model. What a test takes
-- from outside src is an argument of it.
pub mod Wire
pub mod Source
pub mod Daemon
pub mod Hook
