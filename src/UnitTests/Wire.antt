-- ===== src/UnitTests/Wire.antt =====
-- crates/pulse-core/src/wire.rs: its tests.
use pulse_narrator.Prelude.{
  ℕ, ◌+◌, ◌^◌, ◌<◌, String, List, Bool, true, false, ◌&&◌, Option, none, some, str_eq, ◌==◌, length,
  ◌≡◌, refl, arith,
}
use pulse_narrator.Prelude.Results.{Result, ok, err}
use pulse_narrator.Core.Event.{SessionId}
use pulse_narrator.Core.Wire.{
  WireError, WireEvent, WireEventKind, turn_complete, attention_hint, hook_degraded, Serde,
  IsLawful, wire_version, for_turn_complete, encode_wire, decode_wire,
}
use pulse_narrator.Daemon.Connection.Arrived.{decode_wire-frame}

abbrev wire_version_is_one : Bool
wire_version_is_one = wire_version == 1

-- The derived `PartialEq` of events.
abbrev same_text : Option String → Option String → Bool
same_text none none = true
same_text (some s) (some t) = str_eq s t
same_text none (some t) = false
same_text (some s) none = false

abbrev same_session : Option SessionId → Option SessionId → Bool
same_session none none = true
same_session (some s) (some t) = str_eq s.as_str t.as_str
same_session none (some t) = false
same_session (some s) none = false

abbrev same_kind : WireEventKind → WireEventKind → Bool
same_kind (turn_complete s tid path) (turn_complete s' tid' path') =
    str_eq s.as_str s'.as_str && (str_eq tid.as_str tid'.as_str && same_text path path')
same_kind (attention_hint s id raw path) (attention_hint s' id' raw' path') =
    str_eq s.as_str s'.as_str && (str_eq id id' && (str_eq raw raw' && same_text path path'))
same_kind (hook_degraded reason s) (hook_degraded reason' s') =
    str_eq reason reason' && same_session s s'
same_kind _ _ = false

abbrev same_event : WireEvent → WireEvent → Bool
same_event e e' = (e.schema_version == e'.schema_version) && same_kind e.kind e'.kind

abbrev the_turn : WireEvent
the_turn = for_turn_complete (record { as_str = "s1" }) (record { as_str = "t1" }) wire_version

module _ (serde : Serde) where
  abbrev decoded_is : ℕ → Result WireError (WireEvent × ℕ) → Bool
  decoded_is frame_len (ok (decoded, consumed)) =
      same_event decoded the_turn && (consumed == frame_len)
  decoded_is frame_len (err e) = false

  abbrev decodes_back : Result WireError (List ℕ) → Bool
  decodes_back (ok frame) = decoded_is (length frame) (decode_wire serde frame)
  decodes_back (err e) = false

  abbrev encode_then_decode_roundtrip : Bool
  encode_then_decode_roundtrip = decodes_back (encode_wire serde the_turn)

  wire_tests_pass :
      IsLawful serde
      → (frame : List ℕ) → encode_wire serde the_turn ≡ ok frame
      → length frame < 4 + 2 ^ 32
      → (wire_version_is_one ≡ true) × (encode_then_decode_roundtrip ≡ true)
  unfolding for_turn_complete
  wire_tests_pass lawful frame encoded fits = (
    refl,
    rw (encoded, decode_wire-frame serde lawful the_turn frame encoded fits) (ground arith),
  )
