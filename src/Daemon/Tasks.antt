-- ===== src/Daemon/Tasks.antt =====
-- crates/pulse-daemon/src/connection.rs, as tokio runs it: a task for each connection, one step from
-- a lock or an await to the next, the steps of all tasks interleaved in any order.
pub mod Order
pub mod Once
pub mod Done
pub mod Sound
pub mod Reads
pub mod Carried
pub mod Retries
pub mod Turns
pub mod Exactly
pub mod Complaints
pub mod Marked
pub mod Reported
pub mod Silent
pub mod Growing
pub mod Whole
use pulse_narrator.Prelude.{
  ℕ, zero, suc, String, ◌<>◌, List, [], ◌∷◌, ◌++◌, Bool, true, false, Option, none, some, str_eq,
}
use pulse_narrator.Prelude.Results.{Result, ok, err}
use pulse_narrator.System.{Os}
use pulse_narrator.Core.Event.{SessionId}
use pulse_narrator.Core.Source.{ProbeOutcome, TurnRead}
use pulse_narrator.Core.Wire.{
  WireEvent, WireEventKind, turn_complete, attention_hint, hook_degraded,
}
use pulse_narrator.Source.Error as SourceError
use pulse_narrator.Source.Error.{SourceError}
use pulse_narrator.Daemon.Error.{DaemonError}
use pulse_narrator.Daemon.Degraded.{mark_degraded}
use pulse_narrator.Daemon.Session.{
  DedupVerdict, new, duplicate, SessionManager, set_last_read_offset, record_event,
}
use pulse_narrator.Daemon.Connection.{check_version, handle_read_outcome, last_read_offset_of}

-- Where a handler stands, with what it carries from there on.
pub data Task (Stream : Type 0) : Type 0 where
  receiving : Stream → Task Stream  -- before the frame
  recording : WireEvent → Task Stream  -- before the lock for `record`
  fetching : SessionId → Option String → Task Stream  -- a new turn, before the lock for its offset
  reading : SessionId → String → Option ℕ → Task Stream  -- before `read_complete`
  storing : SessionId → ProbeOutcome → TurnRead → Task Stream  -- before the lock for the offset read
  judging : ProbeOutcome → TurnRead → Task Stream  -- before `handle_read_outcome`
  failing : SourceError → Task Stream  -- before the marker of a failed read
  finished : Result DaemonError (Unit {0}) → Task Stream

module _ {Stream : Type 0} where
  -- The next place, by each of the tests of the handler.
  unfoldable pub gated : WireEvent → Result DaemonError (Unit {0}) → Task Stream
  gated event (ok u) = recording event
  gated event (err e) = finished (err e)

  unfoldable pub received : Result DaemonError WireEvent → Task Stream
  received (ok event) = gated event (check_version event)
  received (err e) = finished (err e)

  unfoldable pub recorded : DedupVerdict → WireEventKind → Task Stream
  recorded duplicate kind = finished (ok tt)
  recorded new (turn_complete session_id turn_id path) = fetching session_id path
  recorded new (attention_hint session_id event_id raw_kind path) = finished (ok tt)
  recorded new (hook_degraded reason session_id) = finished (ok tt)

  unfoldable pub fetched : SessionId → Option String → Option ℕ → Task Stream
  fetched session_id none last = finished (ok tt)
  fetched session_id (some path) last = elim (str_eq path "") [
    | true ↦ finished (ok tt)
    | false ↦ reading session_id path last
  ]

  unfoldable pub answered : SessionId → Result SourceError (ProbeOutcome × TurnRead) → Task Stream
  answered session_id (ok (probe, read)) = storing session_id probe read
  answered session_id (err e) = failing e

-- `receive` is the reading of the frame in time. `read` is the transcript reader: an argument, since
-- other tasks may run and other programs may write while it waits.
module _ (os : Os) {Stream : Type 0} (receive : Stream → Result DaemonError WireEvent)
    (read : String
      → Option ℕ
      → os.World
      → Result SourceError (ProbeOutcome × TurnRead) × os.World) where
  open os use {World}

  -- What the tasks share: the sessions under their lock, and the world.
  abbrev pub Shared : Type 0
  Shared = SessionManager × World

  unfoldable pub step : Task Stream → Shared → Task Stream × Shared
  step (receiving stream) (mgr, w) = (received (receive stream), (mgr, w))
  step (recording event) (mgr, w) =
      let (verdict, mgr', w') = record_event os event mgr w in
      (recorded verdict event.kind, (mgr', w'))
  step (fetching session_id path) (mgr, w) =
      (fetched session_id path (last_read_offset_of session_id mgr), (mgr, w))
  step (reading session_id path last) (mgr, w) =
      let (answer, w') = read path last w in (answered session_id answer, (mgr, w'))
  step (storing session_id probe turn) (mgr, w) =
      (judging probe turn, (set_last_read_offset session_id turn.read_offset mgr, w))
  step (judging probe turn) (mgr, w) =
      (finished (ok tt), (mgr, handle_read_outcome os probe turn w))
  step (failing e) (mgr, w) =
      (finished (ok tt), (mgr, (mark_degraded os ("read failed: " <> SourceError.display e) w).1))
  step (finished r) (mgr, w) = (finished r, (mgr, w))

  -- The task at an index takes a step; an index that names no task changes nothing.
  unfoldable pub step_at : ℕ → List (Task Stream) → Shared → List (Task Stream) × Shared
  step_at i [] shared = ([], shared)
  step_at zero (task ∷ tasks) shared =
      let (task', shared') = step task shared in (task' ∷ tasks, shared')
  step_at (suc i) (task ∷ tasks) shared =
      let (tasks', shared') = step_at i tasks shared in (task ∷ tasks', shared')

  -- What happens next: a task runs, a connection is accepted, or other programs change the world.
  pub data Choice : Type 0 where
    go : ℕ → Choice
    accept : Stream → Choice
    outside : (World → World) → Choice

  pub record Process : Type 0 where
    pub tasks : List (Task Stream)
    pub shared : Shared

  unfoldable pub advance : Choice → Process → Process
  advance (go i) p =
      let (tasks', shared') = step_at i p.tasks p.shared in
      record { tasks = tasks'; shared = shared' }
  advance (accept stream) p = record p { tasks = p.tasks ++ (receiving stream ∷ []) }
  advance (outside change) p = record p { shared = (p.shared.0, change p.shared.1) }

  unfoldable pub run : List Choice → Process → Process
  run [] p = p
  run (choice ∷ choices) p = run choices (advance choice p)
