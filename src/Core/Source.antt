-- ===== src/Core/Source.antt =====
-- crates/pulse-core/src/source.rs: what the transcript reader tells the daemon.
use pulse_narrator.Prelude.{ℕ, String}

pub data ProbeOutcome : Type 0 where
  ok : ProbeOutcome
  drift : String → ProbeOutcome

pub data ReadVerdict : Type 0 where
  settled settled_at_bound truncated : ReadVerdict

pub record TurnDigest : Type 0 where
  pub as_str : String

-- `read_offset` is a u64: the transcript bytes consumed so far.
pub record TurnRead : Type 0 where
  pub digest : TurnDigest
  pub verdict : ReadVerdict
  pub read_offset : ℕ
