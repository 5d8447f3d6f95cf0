-- ===== src/Source/Probe.antt =====
-- crates/pulse-source/src/probe.rs: the top-level shape of one transcript line.
pub mod Shape
use pulse_narrator.Prelude.{
  String, List, [], ◌∷◌, Bool, true, false, ◌||◌, Option, none, some, str_eq, if◌then◌else◌,
}
use pulse_narrator.Prelude.{ℕ}
use pulse_narrator.Prelude.Results.{Result}
use pulse_narrator.Core.Wire.{JsonError}
use pulse_narrator.Core.Source.{ProbeOutcome, drift}
use mathlib.Core.Option

-- `serde_json::Value`, by the three questions the probe asks, and `serde_json::from_slice` at it.
pub record Json : Type 1 where
  pub Value : Type 0
  pub from_slice : List ℕ → Result JsonError Value
  pub get : String → Value → Option Value
  pub as_str : Value → Option String
  pub is_object : Value → Bool

abbrev pub reason_no_type_field : String
reason_no_type_field = "missing top-level `type` field"

abbrev pub reason_message_not_object : String
reason_message_not_object = "`message` field is not an object"

-- `matches!(type_str, "user" | "assistant")`
unfoldable pub is_role_bearing : String → Bool
is_role_bearing type_str = str_eq type_str "user" || str_eq type_str "assistant"

module _ (json : Json) where
  open json use {Value, get, as_str, is_object}

  -- `Some(serde_json::Value::Object(_))`
  unfoldable pub is_some_object : Option Value → Bool
  is_some_object none = false
  is_some_object (some value) = is_object value

  unfoldable pub probe_line : Value → ProbeOutcome
  unfolding is_role_bearing is_some_object
  probe_line line_value = elim (get "type" line_value) [
    | none ↦ drift reason_no_type_field
    | some type_value ↦
        let type_str = Option.get_or (as_str type_value) "" in
        if is_role_bearing type_str
        then if is_some_object (get "message" line_value)
          then ProbeOutcome.ok
          else drift reason_message_not_object
        else ProbeOutcome.ok
  ]

-- The first drift wins.
unfoldable pub aggregate : List ProbeOutcome → ProbeOutcome
aggregate [] = ProbeOutcome.ok
aggregate (ProbeOutcome.ok ∷ outcomes) = aggregate outcomes
aggregate (drift detail ∷ outcomes) = drift detail
