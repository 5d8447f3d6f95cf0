-- ===== src/Daemon/Error.antt =====
-- crates/pulse-daemon/src/error.rs
use pulse_narrator.Prelude.{ℕ, String, ◌<>◌, Bool, true, false}
use pulse_narrator.Prelude.Format.{decimal}
use pulse_narrator.System.{IoError}
use pulse_narrator.Core.Wire.{WireError, truncated_prefix, truncated_body, json}

-- `join` carries what a `JoinError` displays.
pub data DaemonError : Type 0 where
  short_frame : String → DaemonError
  wire : WireError → DaemonError
  schema_version : ℕ → ℕ → DaemonError
  io : IoError → DaemonError
  join : String → DaemonError
  degraded_marker : String → IoError → DaemonError

unfoldable pub is_short_frame : DaemonError → Bool
is_short_frame (short_frame detail) = true
is_short_frame _ = false

-- The `Display` of `WireError`.
unfoldable pub display : WireError → String
unfolding decimal
display (truncated_prefix need have) =
    "incomplete length prefix: need " <> (decimal need <> (" bytes, have " <> decimal have))
display (truncated_body claimed have) =
    "incomplete body: length prefix says " <> (decimal claimed <> (" bytes, have " <> decimal have))
display (json e) = "json decode failed: " <> e.message

-- `From<WireError>`: a truncation becomes a short frame.
unfoldable pub from_wire : WireError → DaemonError
from_wire (truncated_prefix need have) = short_frame (display (truncated_prefix need have))
from_wire (truncated_body claimed have) = short_frame (display (truncated_body claimed have))
from_wire other = wire other

-- The `Display` of `DaemonError`, by its `#[error]` attributes.
unfoldable pub to_text : DaemonError → String
unfolding display decimal
to_text (short_frame detail) =
    "short frame: peer delivered fewer bytes than the length prefix announced (" <> (detail <> ")")
to_text (wire e) = "wire framing: " <> display e
to_text (schema_version envelope daemon) =
    "schema version mismatch: envelope=" <> (decimal envelope <> (" daemon=" <> decimal daemon))
to_text (io e) = "io: " <> e.message
to_text (join e) = "task join: " <> e
to_text (degraded_marker path source) = "degraded marker at " <> (path <> (": " <> source.message))
