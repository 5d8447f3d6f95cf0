-- ===== src/Source/Reader/Growing.antt =====
-- A transcript that has not shrunk since it was last read.
use pulse_narrator.Prelude.{ℕ, ◌≤◌, ◌≡◌, String, List, Option, none, some, arith, inl, inr}
use pulse_narrator.Prelude.Results.{ok}
use pulse_narrator.System.{Os}
use pulse_narrator.Core.Source.{
  ProbeOutcome, ReadVerdict, settled, settled_at_bound, truncated, TurnRead,
}
use pulse_narrator.Source.Probe.{Json}
use pulse_narrator.Source.Settle.{file_size}
use pulse_narrator.Source.Settle.Steady.{Held-now}
use pulse_narrator.Source.Reader.{read_complete}
use pulse_narrator.Source.Reader.Verdicts.{read_complete_truncated_iff}
use pulse_narrator.Source.Reader.Offsets.{Backed, read_complete-Backed}

module _ (os : Os) where
  open os use {World}

  -- The file at a path has at least so many bytes.
  abbrev pub HasBytes : String → ℕ → World → Type 0
  HasBytes path n w = (size : ℕ) × (file_size os path w ≡ ok size) × (n ≤ size)

  -- It has as many as were read, if any were.
  abbrev pub IsAhead : Option ℕ → String → World → Type 0
  IsAhead none path w = Unit
  IsAhead (some n) path w = HasBytes path n w

  module _ (json : Json) (hash : List ℕ → ℕ) (path : String) where
    Backed-now :
        (v : ReadVerdict) (size : ℕ) (w : World)
        → Backed os json hash path v size w
        → file_size os path w ≡ ok size
    Backed-now settled size w h = Held-now os path 0 h
    Backed-now settled_at_bound size w h = h
    Backed-now truncated size w h = h

    -- A read of such a file does not find it cut, and leaves its offset within the file, if no other
    -- program shortens the file while it is read.
    pub read_complete-HasBytes :
        ((n : ℕ) (v : World) → HasBytes path n v → HasBytes path n (os.read path v).1)
        → (last : Option ℕ) (w : World) (p : ProbeOutcome) (r : TurnRead) → IsAhead last path w
        → (read_complete os json hash path last w).0 ≡ ok (p, r)
        → (¬ (r.verdict ≡ truncated))
          × HasBytes path r.read_offset (read_complete os json hash path last w).1
    read_complete-HasBytes grow last w p r ahead h = (whole, within)
      where
        whole : ¬ (r.verdict ≡ truncated)
        whole cut =
            let (current, (prior, known, seen, less)) =
              (read_complete_truncated_iff os json hash path last w p r h).0 cut in
            let (size, there, more) = rw known at ahead in
            let same : size ≡ current = cc (there, seen) in absurd (omega (arith, same, more, less))

        within : HasBytes path r.read_offset (read_complete os json hash path last w).1
        within = elim (read_complete-Backed os json hash path last w p r h) [
          | inl (cut, backed, same) ↦ absurd (whole cut)
          | inr (not_cut, backed, after) ↦ rw after (
              grow r.read_offset _
                (r.read_offset, Backed-now r.verdict r.read_offset _ backed, omega arith))
        ]
