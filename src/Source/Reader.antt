-- ===== src/Source/Reader.antt =====
-- crates/pulse-source/src/reader.rs: `read_complete`.
pub mod Verdicts
pub mod Offsets
pub mod ReadOnly
pub mod Growing
use pulse_narrator.Prelude.{
  ℕ, ◌+◌, min, String, ◌<>◌, List, Option, none, some, ltb, if◌then◌else◌, take, length,
}
use pulse_narrator.Prelude.Results.{Result, ok, err, map_err}
use pulse_narrator.Prelude.Actions.{Action, pure, lift, on_err, ◌>>=◌}
use pulse_narrator.Prelude.Format.{decimal, hex}
use pulse_narrator.System.{Os}
use pulse_narrator.Core.Source.{
  ProbeOutcome, ReadVerdict, settled, settled_at_bound, truncated, TurnDigest, TurnRead,
}
use pulse_narrator.Source.Error.{SourceError, read_failed}
use pulse_narrator.Source.Probe.{Json, aggregate}
use pulse_narrator.Source.Settle.{
  SettleOutcome, stable, at_bound, size_of, file_size, settle, default_settle_bound,
}
use pulse_narrator.Source.Lines.{Tally, tally_lines}

-- `hash` is the 64-bit value that `DefaultHasher` finishes with after hashing a byte slice.
module _ (hash : List ℕ → ℕ) where
  unfoldable pub digest_of : List ℕ → TurnDigest
  digest_of bytes = record { as_str = "sha1-placeholder:" <> hex 16 (hash bytes) }

-- The digest with the counts behind it.
unfoldable pub with_counts : TurnDigest → ℕ → ℕ → TurnDigest
with_counts digest line_count byte_count = record {
  as_str =
      digest.as_str <> ("|lines=" <> (decimal line_count <> ("|bytes=" <> decimal byte_count)));
}

unfoldable pub verdict_of : SettleOutcome → ReadVerdict
verdict_of (stable size) = settled
verdict_of (at_bound size) = settled_at_bound

-- What is returned for a file that has become shorter than what was read before.
unfoldable pub truncated_read : ℕ → ProbeOutcome × TurnRead
truncated_read current = (
  ProbeOutcome.ok,
  record {
    digest = record { as_str = "degraded:truncated" };
    verdict = truncated;
    read_offset = current;
  },
)

-- `&bytes[..min(bytes.len(), read_offset)]`
abbrev pub capped : ℕ → List ℕ → List ℕ
capped read_offset bytes = take (min (length bytes) read_offset) bytes

module _ (os : Os) (json : Json) (hash : List ℕ → ℕ) where
  open os use {World}

  -- Steps (4) and (5), on the bytes up to the settled size.
  unfoldable pub summarise : SettleOutcome → List ℕ → ProbeOutcome × TurnRead
  summarise outcome bytes =
      let tally = tally_lines json bytes in
      (
        aggregate tally.probe_outcomes,
        record {
          digest = with_counts (digest_of hash bytes) tally.line_count tally.byte_count;
          verdict = verdict_of outcome;
          read_offset = size_of outcome;
        },
      )

  -- Steps (2) to (5).
  unfoldable pub read_settled : String → Action World SourceError (ProbeOutcome × TurnRead)
  read_settled path = do
    settle_outcome ← settle os path default_settle_bound none
    bytes ← on_err (read_failed path) (os.read path)
    pure (summarise settle_outcome (capped (size_of settle_outcome) bytes))

  unfoldable pub read_complete :
      String → Option ℕ → Action World SourceError (ProbeOutcome × TurnRead)
  read_complete path none = read_settled path
  read_complete path (some prior) = do
    current ← λ w. (file_size os path w, w)
    if ltb current prior then pure (truncated_read current) else read_settled path
