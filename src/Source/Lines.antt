-- ===== src/Source/Lines.antt =====
-- crates/pulse-source/src/reader.rs, step (4): the walk over the lines of a transcript.
pub mod Counts
pub mod Reasons
use pulse_narrator.Prelude.{ℕ, ◌+◌, String, ◌<>◌, List, [], ◌∷◌, ◌++◌, ◌==◌, if◌then◌else◌, length}
use pulse_narrator.Prelude.Results.{Result, ok, err}
use pulse_narrator.Prelude.Words.{saturating_add}
use pulse_narrator.Prelude.Format.{decimal}
use pulse_narrator.Core.Source.{ProbeOutcome, drift}
use pulse_narrator.Source.Probe.{Json, probe_line}

-- `b'\n'`
abbrev pub newline : ℕ
newline = 10

-- A byte before the first line of a split goes into that line; there always is one.
abbrev pub before_first : ℕ → List (List ℕ) → List (List ℕ)
before_first b [] = (b ∷ []) ∷ []
before_first b (line ∷ lines) = (b ∷ line) ∷ lines

-- `bytes.split(|&b| b == b'\n')`
unfoldable pub split_lines : List ℕ → List (List ℕ)
split_lines [] = [] ∷ []
split_lines (b ∷ bytes) =
    let rest = split_lines bytes in if b == newline then [] ∷ rest else before_first b rest

-- The three variables of the loop.
pub record Tally : Type 0 where
  pub line_count : ℕ
  pub byte_count : ℕ
  pub probe_outcomes : List ProbeOutcome

abbrev pub no_lines : Tally
no_lines = record { line_count = 0; byte_count = 0; probe_outcomes = [] }

-- The reason of a line that is no JSON.
abbrev pub malformed : ℕ → String
malformed line_no = "malformed JSON line " <> decimal line_no

module _ (json : Json) where
  -- One round of the loop, for the line at `idx`.
  unfoldable pub tally_line : ℕ → List ℕ → Tally → Tally
  tally_line idx [] tally = tally
  tally_line idx (b ∷ rest) tally =
      let line = b ∷ rest in
      let byte_count = saturating_add tally.byte_count (length line + 1) in
      elim (json.from_slice line) [
        | ok v ↦ record {
          line_count = saturating_add tally.line_count 1;
          byte_count = byte_count;
          probe_outcomes = tally.probe_outcomes ++ (probe_line json v ∷ []);
        }
        | err source ↦ record tally {
          byte_count = byte_count;
          probe_outcomes = tally.probe_outcomes ++ (drift (malformed (idx + 1)) ∷ []);
        }
      ]

  unfoldable pub tally_from : ℕ → List (List ℕ) → Tally → Tally
  unfolding tally_line
  tally_from idx [] tally = tally
  tally_from idx (line ∷ lines) tally = tally_from (idx + 1) lines (tally_line idx line tally)

  unfoldable pub tally_lines : List ℕ → Tally
  unfolding tally_from split_lines
  tally_lines bytes = tally_from 0 (split_lines bytes) no_lines
