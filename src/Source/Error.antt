-- ===== src/Source/Error.antt =====
-- crates/pulse-source/src/error.rs: why a transcript could not be read.
use pulse_narrator.Prelude.{ℕ, String, ◌<>◌}
use pulse_narrator.Prelude.Format.{decimal}
use pulse_narrator.System.{IoError}
use pulse_narrator.Core.Wire.{JsonError}

pub data SourceError : Type 0 where
  open_failed : String → IoError → SourceError
  read_failed : String → IoError → SourceError
  malformed_line : String → ℕ → JsonError → SourceError

-- The `Display` that the `#[error]` attributes give.
unfoldable pub display : SourceError → String
unfolding decimal
display (open_failed path source) =
    "transcript open failed at " <> (path <> (": " <> source.message))
display (read_failed path source) =
    "transcript read failed at " <> (path <> (": " <> source.message))
display (malformed_line path line_no source) =
    "malformed JSON line at " <> (path <> (":" <> (decimal line_no <> (": " <> source.message))))
