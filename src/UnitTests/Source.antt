-- ===== src/UnitTests/Source.antt =====
-- crates/pulse-source/src: the tests of probe.rs, reader.rs and adapter.rs.
use pulse_narrator.Prelude.{
  ◌*◌, String, [], ◌∷◌, Bool, true, false, ◌&&◌, ◌||◌, not, Option, none, some, str_eq, ◌==◌, leb,
  if◌then◌else◌, ◌≡◌, refl,
}
use pulse_narrator.Prelude.Results.{err}
use pulse_narrator.Core.Event.{SourceEvent, turn_complete}
use pulse_narrator.Core.Source.{ProbeOutcome, drift}
use pulse_narrator.Source.Probe.{Json, is_role_bearing, is_some_object, probe_line, aggregate}
use pulse_narrator.Source.Settle.{poll_interval_for_size, base_poll_interval}
use pulse_narrator.Source.Adapter.{Mpsc, Delivers, adapter_for, events}
use pulse_narrator.Source.Adapter.Stream.{events-Yields}
use pulse_narrator.Daemon.Main.{strip_prefix}

-- The values of the tests' `json!`, by their kinds.
mutual
  pub data Value : Type 0 where
    text : String → Value
    flag : Bool → Value
    array : Value → Value
    object : Fields → Value

  pub data Fields : Type 0 where
    no_fields : Fields
    field : String → Value → Fields → Fields

abbrev find : String → Fields → Option Value
find key no_fields = none
find key (field name value fields) = if str_eq name key then some value else find key fields

abbrev value_at : String → Value → Option Value
value_at key (object fields) = find key fields
value_at key (text s) = none
value_at key (flag b) = none
value_at key (array v) = none

abbrev text_of : Value → Option String
text_of (text s) = some s
text_of (flag b) = none
text_of (array v) = none
text_of (object _) = none

abbrev is_obj : Value → Bool
is_obj (object _) = true
is_obj (text s) = false
is_obj (flag b) = false
is_obj (array v) = false

-- The tests build their values and parse none.
abbrev json : Json
json = record {
  Value = Value;
  from_slice = λ bytes. err (record { message = "" });
  get = value_at;
  as_str = text_of;
  is_object = is_obj;
}

abbrev is_ok : ProbeOutcome → Bool
is_ok ProbeOutcome.ok = true
is_ok (drift detail) = false

-- `str::contains`
abbrev some_prefix : Option String → Bool
some_prefix none = false
some_prefix (some rest) = true

abbrev pub contains : String → String → Bool
contains String.[] part = some_prefix (strip_prefix part String.[])
contains (String.◌∷◌ c s) part =
    let rest = contains s part in some_prefix (strip_prefix part (String.◌∷◌ c s)) || rest

abbrev detail_contains : String → ProbeOutcome → Bool
detail_contains part ProbeOutcome.ok = false
detail_contains part (drift detail) = contains detail part

abbrev ok_for_well_formed_assistant_line : Bool
ok_for_well_formed_assistant_line = is_ok (
    probe_line json (
      object (
        field "type" (text "assistant") (
          field "message"
            (object (
              field "role" (text "assistant") (
                field "content"
                  (array (object (field "type" (text "text") (field "text" (text "hi") no_fields))))
                  no_fields)))
            no_fields))))

abbrev ok_for_unknown_type_treated_as_forward_compat : Bool
ok_for_unknown_type_treated_as_forward_compat = is_ok (
    probe_line json
      (object (field "type" (text "some_future_kind") (field "anything" (flag true) no_fields))))

abbrev drift_when_type_missing : Bool
drift_when_type_missing = detail_contains "type" (
    probe_line json
      (object (field "message" (object (field "role" (text "user") no_fields)) no_fields)))

abbrev drift_when_assistant_message_not_object : Bool
drift_when_assistant_message_not_object = not (
    is_ok (
      probe_line json (
        object
          (field "type" (text "assistant") (field "message" (text "not-an-object") no_fields)))))

abbrev detail_is : String → ProbeOutcome → Bool
detail_is expected ProbeOutcome.ok = false
detail_is expected (drift detail) = str_eq detail expected

abbrev aggregate_returns_first_drift : Bool
aggregate_returns_first_drift =
    detail_is "first" (aggregate (ProbeOutcome.ok ∷ drift "first" ∷ drift "second" ∷ []))

abbrev aggregate_ok_when_all_ok_or_empty : Bool
aggregate_ok_when_all_ok_or_empty =
    is_ok (aggregate []) && is_ok (aggregate (ProbeOutcome.ok ∷ ProbeOutcome.ok ∷ []))

probe_tests_pass :
    (ok_for_well_formed_assistant_line ≡ true)
    × (ok_for_unknown_type_treated_as_forward_compat ≡ true)
    × (drift_when_type_missing ≡ true)
    × (drift_when_assistant_message_not_object ≡ true)
    × (aggregate_returns_first_drift ≡ true)
    × (aggregate_ok_when_all_ok_or_empty ≡ true)
unfolding probe_line is_role_bearing is_some_object aggregate strip_prefix
probe_tests_pass = (refl, refl, refl, refl, refl, refl)

abbrev poll_interval_floor_for_small_files : Bool
poll_interval_floor_for_small_files =
    (poll_interval_for_size 0 == base_poll_interval)
    && (poll_interval_for_size 50000 == base_poll_interval)

abbrev poll_interval_scales_with_size : Bool
poll_interval_scales_with_size = leb 500 (poll_interval_for_size (1024 * 1024))

reader_tests_pass :
    (poll_interval_floor_for_small_files ≡ true) × (poll_interval_scales_with_size ≡ true)
unfolding poll_interval_for_size
reader_tests_pass = (refl, refl)

abbrev is_turn_complete : Option SourceEvent → Bool
is_turn_complete (some (turn_complete turn_id)) = true
is_turn_complete _ = false

abbrev is_end : Option SourceEvent → Bool
is_end none = true
is_end (some event) = false

module _ (mpsc : Mpsc) where
  abbrev emits_turn_complete_event : Bool
  emits_turn_complete_event =
      let (event, stream) = mpsc.next (events mpsc (adapter_for "/tmp/some-transcript.jsonl")) in
      is_turn_complete event && is_end (mpsc.next stream).0

  adapter_test_passes : Delivers mpsc → emits_turn_complete_event ≡ true
  adapter_test_passes law =
      let (first, last) = events-Yields mpsc law (adapter_for "/tmp/some-transcript.jsonl") in
      rw (first, last) refl
