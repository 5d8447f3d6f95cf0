-- ===== src/Source/Lines/Reasons.antt =====
-- Which reason the walk over the lines reports.
use pulse_narrator.Prelude.{ℕ, ◌+◌, ◌≡◌, refl, ◌∙◌, List, [], ◌∷◌, ◌++◌, arith, inl, inr}
use pulse_narrator.Prelude.Results.{ok, err, Result-cases}
use pulse_narrator.Core.Source.{ProbeOutcome, drift}
use pulse_narrator.Source.Probe.{Json, probe_line, aggregate}
use pulse_narrator.Source.Lines.{
  split_lines, Tally, no_lines, malformed, tally_line, tally_from, tally_lines,
}

-- The first of two reasons.
abbrev pub or_else : ProbeOutcome → ProbeOutcome → ProbeOutcome
or_else ProbeOutcome.ok later = later
or_else (drift detail) later = drift detail

aggregate-append :
    (xs ys : List ProbeOutcome) → aggregate (xs ++ ys) ≡ or_else (aggregate xs) (aggregate ys)
unfolding aggregate
aggregate-append [] ys = refl
aggregate-append (ProbeOutcome.ok ∷ xs) ys = aggregate-append xs ys
aggregate-append (drift detail ∷ xs) ys = refl

aggregate-one : (o : ProbeOutcome) → aggregate (o ∷ []) ≡ o
unfolding aggregate
aggregate-one ProbeOutcome.ok = refl
aggregate-one (drift detail) = refl

or_else_assoc : (a b c : ProbeOutcome) → or_else (or_else a b) c ≡ or_else a (or_else b c)
or_else_assoc ProbeOutcome.ok b c = refl
or_else_assoc (drift detail) b c = refl

module _ (json : Json) where
  -- What is wrong with the line of this number: an empty one is fine.
  abbrev pub fault : ℕ → List ℕ → ProbeOutcome
  fault line_no [] = ProbeOutcome.ok
  fault line_no (b ∷ line) = elim (json.from_slice (b ∷ line)) [
    | ok v ↦ probe_line json v
    | err source ↦ drift (malformed line_no)
  ]

  -- The fault of the first line that has one; lines are numbered from `idx + 1` on.
  abbrev pub first_fault : ℕ → List (List ℕ) → ProbeOutcome
  first_fault idx [] = ProbeOutcome.ok
  first_fault idx (line ∷ lines) = or_else (fault (idx + 1) line) (first_fault (idx + 1) lines)

  tally_line_reason :
      (idx : ℕ) (line : List ℕ) (tally : Tally)
      → aggregate (tally_line json idx line tally).probe_outcomes
        ≡ or_else (aggregate tally.probe_outcomes) (fault (idx + 1) line)
  unfolding tally_line
  tally_line_reason idx [] tally = ground arith
  tally_line_reason idx (b ∷ line) tally = elim (Result-cases (json.from_slice (b ∷ line))) [
    | inl (v, e) ↦ ground (
      arith,
      aggregate-append tally.probe_outcomes (probe_line json v ∷ []),
      aggregate-one (probe_line json v),
    )
    | inr (x, e) ↦ ground (
      arith,
      aggregate-append tally.probe_outcomes (drift (malformed (idx + 1)) ∷ []),
      aggregate-one (drift (malformed (idx + 1))),
    )
  ]

  tally_from_reason :
      (idx : ℕ) (lines : List (List ℕ)) (tally : Tally)
      → aggregate (tally_from json idx lines tally).probe_outcomes
        ≡ or_else (aggregate tally.probe_outcomes) (first_fault idx lines)
  unfolding tally_from
  tally_from_reason idx [] tally = ground arith
  tally_from_reason idx (line ∷ lines) tally =
      tally_from_reason (idx + 1) lines (tally_line json idx line tally)
      ∙ rw tally_line_reason (
          or_else_assoc (aggregate tally.probe_outcomes) (fault (idx + 1) line)
            (first_fault (idx + 1) lines))

  -- The transcript's outcome is the fault of its first faulty line, or none.
  pub tally_lines_reason :
      (bytes : List ℕ)
      → aggregate (tally_lines json bytes).probe_outcomes ≡ first_fault 0 (split_lines bytes)
  unfolding tally_lines aggregate
  tally_lines_reason bytes = tally_from_reason 0 (split_lines bytes) no_lines
