-- ===== src/Source/Lines/Counts.antt =====
-- What the walk over the lines counts, and which reason it reports.
use pulse_narrator.Prelude.{ℕ, suc, ◌+◌, ◌≤◌, List, [], ◌∷◌, ◌++◌, length, arith}
use pulse_narrator.Prelude.Results.{ok, err}
use pulse_narrator.Source.Probe.{Json}
use pulse_narrator.Source.Lines.{newline}

-- The lines of a text, joined by newlines.
abbrev pub join_lines : List (List ℕ) → List ℕ
join_lines [] = []
join_lines (line ∷ []) = line
join_lines (line ∷ next ∷ lines) = line ++ (newline ∷ join_lines (next ∷ lines))

-- Bytes of the lines that are not empty, each with a newline.
abbrev pub weight : List (List ℕ) → ℕ
weight [] = 0
weight ([] ∷ lines) = weight lines
weight ((b ∷ line) ∷ lines) = suc (suc (length line)) + weight lines

abbrev pub empty_lines : List (List ℕ) → ℕ
empty_lines [] = 0
empty_lines ([] ∷ lines) = suc (empty_lines lines)
empty_lines ((b ∷ line) ∷ lines) = empty_lines lines

-- The lines that are JSON, among those that are not empty.
abbrev pub is_json : (json : Json) → List ℕ → ℕ
is_json json line = elim (json.from_slice line) [ ok v ↦ 1 | err source ↦ 0 ]

abbrev pub json_lines : (json : Json) → List (List ℕ) → ℕ
json_lines json [] = 0
json_lines json ([] ∷ lines) = json_lines json lines
json_lines json ((b ∷ line) ∷ lines) = is_json json (b ∷ line) + json_lines json lines

module _ (json : Json) where
  is_json-le : (line : List ℕ) → is_json json line ≤ 1
  is_json-le line = ground arith

  json_lines-le : (lines : List (List ℕ)) → json_lines json lines ≤ weight lines
  json_lines-le [] = omega arith
  json_lines-le ([] ∷ lines) = omega (arith, json_lines-le lines)
  json_lines-le ((b ∷ line) ∷ lines) = omega (arith, json_lines-le lines, is_json-le (b ∷ line))
