-- ===== src/Examples/Source.antt =====
-- The transcript reader, on a small transcript.
use pulse_narrator.Prelude.{ℕ, ◌≡◌, ◌≢◌, ◌⊎◌, ◌↔◌, refl, List, none, some, ltb, if◌then◌else◌}
use pulse_narrator.Prelude.Results.{ok}
use pulse_narrator.Core.Source.{ProbeOutcome, TurnRead, truncated}
use pulse_narrator.Source.Probe.{probe_line}
use pulse_narrator.Source.Probe.Shape.{HasRole, HasMessage, probe_line_iff}
use pulse_narrator.Source.Settle.{
  stable, at_bound, size_of, file_size, settle, default_settle_bound,
}
use pulse_narrator.Source.Settle.Idle.{Asleep, here, nap_on, settle_idle_default}
use pulse_narrator.Source.Lines.{split_lines}
use pulse_narrator.Source.Lines.Reasons.{first_fault}
use pulse_narrator.Source.Reader.{capped, summarise, truncated_read, read_settled, read_complete}
use pulse_narrator.Source.Reader.ReadOnly.{settle-Asleep}
use pulse_narrator.Source.Reader.Verdicts.{Shrunk, window, read_complete_truncated_iff}
use pulse_narrator.Source.Reader.Offsets.{Backed, read_complete-Backed, read_complete_reason}
use pulse_narrator.Examples.Worlds.{SmallWorld, os, json, line, user, hash, two_lines, calm}

-- The file of `calm` keeps its three bytes however long one sleeps.
calm_size : (v : SmallWorld) → Asleep os calm v → file_size os "/t" v ≡ ok 3
unfolding file_size
calm_size _ here = refl
calm_size _ (nap_on d before) = calm_size _ before

settle_idle_default_example :
    (settle os "/t" default_settle_bound none calm).0
    ≡ ok (if ltb 3 2048000 then stable 3 else at_bound 3)
settle_idle_default_example = settle_idle_default os "/t" 3 calm calm_size

-- A read from offset 9, when three bytes are left.
cut : (read_complete os json hash "/t" (some 9) calm).0 ≡ ok (ProbeOutcome.ok, (truncated_read 3).1)
unfolding read_complete truncated_read file_size
cut = refl

read_complete_truncated_iff_example :
    ((truncated_read 3).1.verdict ≡ truncated)
    ↔ ((current : ℕ) × Shrunk os json hash "/t" (some 9) calm current)
read_complete_truncated_iff_example =
    read_complete_truncated_iff os json hash "/t" (some 9) calm ProbeOutcome.ok (truncated_read 3).1
      cut

-- A read from offset 2, when three bytes are left and nothing changes: four polls see them.
abbrev settled_read : ProbeOutcome × TurnRead
settled_read = summarise os json hash (stable 3) two_lines

kept : (v : SmallWorld) → Asleep os calm v → v.transcript ≡ two_lines
kept _ here = refl
kept _ (nap_on d before) = kept _ before

read_on : (read_complete os json hash "/t" (some 2) calm).0 ≡ ok (settled_read.0, settled_read.1)
unfolding read_complete read_settled file_size size_of summarise
read_on =
    rw
      (
        read_settled,
        settle_idle_default_example,
        kept _ (settle-Asleep os "/t" default_settle_bound calm),
      )
      refl

read_complete-Backed_example :
    ((settled_read.1.verdict ≡ truncated)
      × Backed os json hash "/t" settled_read.1.verdict settled_read.1.read_offset calm
      × ((read_complete os json hash "/t" (some 2) calm).1 ≡ calm))
    ⊎ (¬ (settled_read.1.verdict ≡ truncated)
        × Backed os json hash "/t" settled_read.1.verdict settled_read.1.read_offset
            (window os json hash "/t" calm).1
        × ((read_complete os json hash "/t" (some 2) calm).1
            ≡ (os.read "/t" (window os json hash "/t" calm).1).1))
read_complete-Backed_example =
    read_complete-Backed os json hash "/t" (some 2) calm settled_read.0 settled_read.1 read_on

read_complete_reason_example :
    ((settled_read.1.verdict ≡ truncated) × (settled_read.0 ≡ ProbeOutcome.ok))
    ⊎ ((bytes : List ℕ) × (os.read "/t" (window os json hash "/t" calm).1
          ≡ (ok bytes, (read_complete os json hash "/t" (some 2) calm).1))
        × (settled_read.0
            ≡ first_fault json 0 (split_lines (capped settled_read.1.read_offset bytes))))
read_complete_reason_example =
    read_complete_reason os json hash "/t" (some 2) calm settled_read.0 settled_read.1 read_on

probe_line_iff_example :
    (probe_line json line ≡ ProbeOutcome.ok)
    ↔ ((some user ≢ none) × (HasRole json line → HasMessage json line))
probe_line_iff_example = probe_line_iff json line
