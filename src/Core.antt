-- ===== src/Core.antt =====
-- crates/pulse-core: the vocabulary and the wire format that the hook and the daemon share.
pub mod Event
pub mod Source
pub mod Tts
pub mod Wire
pub mod Error
