-- ===== src/Daemon/Session.antt =====
-- crates/pulse-daemon/src/session.rs: the session multiplexer.
pub mod Dedup
pub mod Retries
pub mod History
pub mod Sound
pub mod Same
pub mod Receipts
use pulse_narrator.Prelude.{
  ℕ, ◌+◌, ◌==◌, String, Bool, true, false, Option, none, some, List, [], str_eq, if◌then◌else◌,
  length,
}
use pulse_narrator.Prelude.Words.{saturating_add}
use pulse_narrator.Prelude.Maps.{Map, lookup, insert}
use pulse_narrator.System.{Os}
use pulse_narrator.Core.Event.{SessionId}
use pulse_narrator.Core.Wire.{
  WireEvent, WireEventKind, turn_complete, attention_hint, hook_degraded,
}
use pulse_narrator.Daemon.Degraded.{mark_degraded}

pub data DedupVerdict : Type 0 where
  new duplicate : DedupVerdict

pub record SessionState : Type 0 where
  pub transcript_path : Option String
  pub last_event_id : Option String
  pub receipt_seq : ℕ
  pub last_read_offset : Option ℕ

-- `SessionState::default`
abbrev pub default_state : SessionState
default_state = record {
  transcript_path = none;
  last_event_id = none;
  receipt_seq = 0;
  last_read_offset = none;
}

-- The map is keyed by the text of the session id.
pub record SessionManager : Type 0 where
  pub sessions : Map SessionState

-- `SessionManager::new`
abbrev pub empty_manager : SessionManager
empty_manager = record { sessions = [] }

-- `SessionManager::len`
unfoldable pub session_count : SessionManager → ℕ
session_count mgr = length mgr.sessions

unfoldable pub is_empty : SessionManager → Bool
is_empty mgr = length mgr.sessions == 0

unfoldable pub get : SessionId → SessionManager → Option SessionState
get session_id mgr = lookup session_id.as_str mgr.sessions

-- `get_mut` and the assignment of its caller: nothing happens for a session that is not tracked.
unfoldable pub set_last_read_offset : SessionId → ℕ → SessionManager → SessionManager
unfolding get
set_last_read_offset session_id offset mgr = elim (get session_id mgr) [
  | none ↦ mgr
  | some state ↦ record {
    sessions =
        insert session_id.as_str (record state { last_read_offset = some offset }) mgr.sessions;
  }
]

-- `state.last_event_id.as_deref() == Some(event_id.as_str())`
unfoldable pub is_last : Option String → String → Bool
is_last none event_id = false
is_last (some last) event_id = str_eq last event_id

-- `if transcript_path.is_some() { state.transcript_path = transcript_path; }`
unfoldable pub newer : Option String → Option String → Option String
newer none old = old
newer (some path) old = some path

-- The state of a session after a new event.
unfoldable pub receive : String → Option String → SessionState → SessionState
unfolding newer
receive event_id transcript_path state = record state {
  last_event_id = some event_id;
  transcript_path = newer transcript_path state.transcript_path;
  receipt_seq = saturating_add state.receipt_seq 1;
}

-- `entry(session_id).or_default()`: the state, and the map that now has it.
unfoldable pub entry_or_default : SessionId → SessionManager → SessionState × SessionManager
unfolding get
entry_or_default session_id mgr = elim (get session_id mgr) [
  | none ↦
      (default_state, record { sessions = insert session_id.as_str default_state mgr.sessions })
  | some state ↦ (state, mgr)
]

unfoldable pub record_dedup :
    SessionId → String → Option String → SessionManager → DedupVerdict × SessionManager
record_dedup session_id event_id transcript_path mgr =
    let (state, mgr') = entry_or_default session_id mgr in
    if is_last state.last_event_id event_id then (duplicate, mgr') else (
      new,
      record {
        sessions = insert session_id.as_str (receive event_id transcript_path state) mgr'.sessions;
      },
    )

module _ (os : Os) where
  open os use {World}

  abbrev touch : Option SessionId → SessionManager → SessionManager
  touch none mgr = mgr
  touch (some session_id) mgr = (entry_or_default session_id mgr).1

  -- `record`, on the manager and on the world of the marker; a failed marker write is only logged.
  unfoldable pub record_event :
      WireEvent → SessionManager → World → DedupVerdict × SessionManager × World
  record_event event mgr w = elim event.kind [
    | turn_complete session_id turn_id transcript_path ↦
        let (verdict, mgr') = record_dedup session_id turn_id.as_str transcript_path mgr in
        (verdict, mgr', w)
    | attention_hint session_id event_id raw_kind transcript_path ↦
        let (verdict, mgr') = record_dedup session_id event_id transcript_path mgr in
        (verdict, mgr', w)
    | hook_degraded reason session_id ↦ (new, touch session_id mgr, (mark_degraded os reason w).1)
  ]
