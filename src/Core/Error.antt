-- ===== src/Core/Error.antt =====
-- crates/pulse-core/src/error.rs
use pulse_narrator.Prelude.{String}
use pulse_narrator.Core.Wire.{WireError}

pub data CoreError : Type 0 where
  wire : WireError → CoreError
  other : String → CoreError
