-- ===== src/Daemon/Connection.antt =====
-- crates/pulse-daemon/src/connection.rs: one accepted connection. The state that it changes is the
-- sessions and the world; the log lines are left out. Here a connection's sections run one after
-- another; Daemon.Tasks has those of other connections between them.
pub mod Refusal
pub mod Loud
pub mod Marked
pub mod Arrived
pub mod Switched
pub mod Offset
use pulse_narrator.Prelude.{
  ℕ, String, ◌<>◌, ◌≡◌, List, Bool, true, false, Option, none, some, str_eq, ◌==◌, if◌then◌else◌,
}
use pulse_narrator.Prelude.Results.{Result, ok, err}
use pulse_narrator.Prelude.Actions.{Action, pure, lift, ◌>>=◌, ◌>>◌}
use pulse_narrator.System.{Os}
use pulse_narrator.Core.Event.{SessionId}
use pulse_narrator.Core.Source.{
  ProbeOutcome, drift, ReadVerdict, settled, settled_at_bound, truncated, TurnRead,
}
use pulse_narrator.Core.Wire.{
  WireEvent, WireEventKind, turn_complete, attention_hint, hook_degraded, WireError, Serde,
  wire_version,
}
use pulse_narrator.Core.Wire.Stream.{AsyncRead, read_frame}
use pulse_narrator.Source.Error as SourceError
use pulse_narrator.Source.Probe.{Json}
use pulse_narrator.Source.Reader.{read_complete}
use pulse_narrator.Daemon.Error.{DaemonError, short_frame, schema_version, from_wire}
use pulse_narrator.Daemon.Degraded.{mark_degraded}
use pulse_narrator.Daemon.Session.{
  DedupVerdict, new, duplicate, SessionState, SessionManager, get, set_last_read_offset,
  record_event,
}
use mathlib.Core.Option

-- Milliseconds.
abbrev pub read_timeout : ℕ
read_timeout = 2000

-- `tokio::time::timeout` over the reading of a frame: `none` if the time is up.
pub record Timeout (R : AsyncRead) : Type 0 where
  pub timeout :
      ℕ
      → Action R.Reader WireError WireEvent
      → R.Reader
      → Option (Result WireError WireEvent × R.Reader)

-- What tokio documents of it: a reading that is in time is what it would have been without it.
pub record Completes (R : AsyncRead) (T : Timeout R) : Type 0 where
  pub in_time :
      (d : ℕ) (m : Action R.Reader WireError WireEvent) (r : R.Reader)
      (x : Result WireError WireEvent × R.Reader)
      → T.timeout d m r ≡ some x
      → m r ≡ x

abbrev pub timed_out : DaemonError
timed_out = short_frame "read timeout before frame completed"

module _ (serde : Serde) (R : AsyncRead) (T : Timeout R) where
  -- The first `match`: the event of the frame.
  unfoldable pub receive_frame : R.Reader → Result DaemonError WireEvent
  receive_frame r = elim (T.timeout read_timeout (read_frame serde R) r) [
    | none ↦ err timed_out
    | some (ok event, r') ↦ ok event
    | some (err e, r') ↦ err (from_wire e)
  ]

-- The schema-version gate.
unfoldable pub check_version : WireEvent → Result DaemonError (Unit {0})
check_version event =
    if event.schema_version == wire_version
    then ok tt
    else err (schema_version event.schema_version wire_version)

module _ (os : Os) where
  open os use {World}

  -- A failed marker write is only logged.
  unfoldable pub handle_read_outcome : ProbeOutcome → TurnRead → World → World
  handle_read_outcome (drift detail) read w = (mark_degraded os detail w).1
  handle_read_outcome ProbeOutcome.ok read w = elim read.verdict [
    | settled ↦ w
    | settled_at_bound ↦ w
    | truncated ↦ (mark_degraded os "truncated transcript (size regression)" w).1
  ]

-- `guard.get(session_id).and_then(|s| s.last_read_offset)`
unfoldable pub last_read_offset_of : SessionId → SessionManager → Option ℕ
last_read_offset_of session_id mgr = elim (get session_id mgr) [
  | none ↦ none
  | some state ↦ state.last_read_offset
]

module _ (os : Os) (json : Json) (hash : List ℕ → ℕ) where
  open os use {World}

  -- The reader on a path that is not empty, and what follows its answer.
  unfoldable pub read_turn : SessionId → String → SessionManager → World → SessionManager × World
  read_turn session_id path mgr w =
      let (result, w') = read_complete os json hash path (last_read_offset_of session_id mgr) w in
      elim result [
        | ok (probe, read) ↦ (
          set_last_read_offset session_id read.read_offset mgr,
          handle_read_outcome os probe read w',
        )
        | err e ↦ (mgr, (mark_degraded os ("read failed: " <> SourceError.display e) w').1)
      ]

  unfoldable pub on_turn :
      SessionId → Option String → SessionManager → World → SessionManager × World
  on_turn session_id none mgr w = (mgr, w)
  on_turn session_id (some path) mgr w = elim (str_eq path "") [
    | true ↦ (mgr, w)
    | false ↦ read_turn session_id path mgr w
  ]

  -- The second `match`, on a new event.
  unfoldable pub on_new : WireEventKind → SessionManager → World → SessionManager × World
  on_new (turn_complete session_id turn_id path) mgr w = on_turn session_id path mgr w
  on_new (attention_hint session_id event_id raw_kind path) mgr w = (mgr, w)
  on_new (hook_degraded reason session_id) mgr w = (mgr, w)

  -- A duplicate ends the connection.
  unfoldable pub on_verdict :
      DedupVerdict → WireEventKind → SessionManager → World → SessionManager × World
  on_verdict duplicate kind mgr w = (mgr, w)
  on_verdict new kind mgr w = on_new kind mgr w

  -- From the forwarding to the session manager on.
  unfoldable pub on_event : WireEvent → SessionManager → World → SessionManager × World
  on_event event mgr w =
      let (verdict, mgr', w') = record_event os event mgr w in on_verdict verdict event.kind mgr' w'

  module _ (serde : Serde) (R : AsyncRead) (T : Timeout R) where
    unfoldable pub handle_connection :
        R.Reader → Action (SessionManager × World) DaemonError (Unit {0})
    handle_connection stream = do
      event ← lift (receive_frame serde R T stream)
      lift (check_version event)
      λ (mgr, w). (ok tt, on_event event mgr w)
