-- ===== src/UnitTests/Daemon.antt =====
-- crates/pulse-daemon/src/session.rs: its tests.
use pulse_narrator.Prelude.{
  String, Bool, true, false, ◌&&◌, Option, none, some, str_eq, ◌==◌, ◌≡◌, refl,
}
use pulse_narrator.Prelude.Maps.{lookup, insert}
use pulse_narrator.System.{Os}
use pulse_narrator.Core.Wire.{WireEvent, turn_complete, new}
use pulse_narrator.Daemon.Session.{
  SessionState, empty_manager, session_count, is_empty, get, is_last, newer, receive,
  entry_or_default, record_dedup, record_event,
}

abbrev turn : String → String → WireEvent
turn session turn_id =
    new (turn_complete (record { as_str = session }) (record { as_str = turn_id }) none)

abbrev new_manager_is_empty : Bool
new_manager_is_empty = is_empty empty_manager && (session_count empty_manager == 0)

abbrev text_is : String → Option String → Bool
text_is expected none = false
text_is expected (some s) = str_eq s expected

abbrev two_receipts : Option SessionState → Bool
two_receipts none = false
two_receipts (some state) = (state.receipt_seq == 2) && text_is "t2" state.last_event_id

module _ (os : Os) (w : os.World) where
  abbrev receipt_seq_increments_on_new_events : Bool
  receipt_seq_increments_on_new_events =
      let (_, mgr, w') = record_event os (turn "s" "t1") empty_manager w in
      let (_, mgr', _) = record_event os (turn "s" "t2") mgr w' in
      two_receipts (get (record { as_str = "s" }) mgr')

  session_tests_pass : (new_manager_is_empty ≡ true) × (receipt_seq_increments_on_new_events ≡ true)
  unfolding record_event record_dedup entry_or_default get lookup insert is_last receive newer new
      is_empty session_count
  session_tests_pass = (refl, refl)
