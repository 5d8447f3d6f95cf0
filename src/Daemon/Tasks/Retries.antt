-- ===== src/Daemon/Tasks/Retries.antt =====
-- A turn that is delivered again and again, at any times: its transcript is read at most once.
use pulse_narrator.Prelude.{
  ℕ, zero, suc, ◌≤◌, String, ◌≡◌, refl, List, [], ◌∷◌, Option, none, some, str_eq, if◌then◌else◌,
  arith,
}
use pulse_narrator.Prelude.Results.{Result}
use pulse_narrator.System.{Os}
use pulse_narrator.Core.Event.{SessionId, TurnId}
use pulse_narrator.Core.Source.{ProbeOutcome, TurnRead}
use pulse_narrator.Core.Wire.{
  WireEvent, WireEventKind, turn_complete, attention_hint, hook_degraded,
}
use pulse_narrator.Source.Error.{SourceError}
use pulse_narrator.Daemon.Error.{DaemonError}
use pulse_narrator.Daemon.Session.{
  DedupVerdict, new, duplicate, SessionManager, record_dedup, record_event,
}
use pulse_narrator.Daemon.Tasks.{
  Task, receiving, recording, fetching, reading, storing, judging, failing, finished, Shared,
  Choice, go, accept, outside, Process, advance,
}
use pulse_narrator.Daemon.Tasks.Carried.{AllCarry, trace-AllKinds}
use pulse_narrator.Daemon.Tasks.Order.{log, log_at, log_choice}
use pulse_narrator.Daemon.Tasks.Once.{HasId, count_new, news, news_all, news_in_run, news_in_run-le}
use pulse_narrator.Daemon.Tasks.Reads.{
  readable, due, due_next, due_at, due_choice, due_in_run, reads_in_run, reads_in_run-due_in_run,
}

module _ (os : Os) {Stream : Type 0} (take_frame : Stream → Result DaemonError WireEvent)
    (read : String → Option ℕ → os.World → Result SourceError (ProbeOutcome × TurnRead) × os.World)
    (sid : SessionId) (event_id : String) where
  open os use {World}

  readable-le : (path : Option String) → readable path ≤ 1
  readable-le none = omega arith
  readable-le (some path) = ground arith

  due-new :
      (v : DedupVerdict) (s : SessionId) (tid : TurnId) (path : Option String)
      → due sid v (turn_complete s tid path)
        ≤ (if str_eq s.as_str sid.as_str then count_new sid event_id v else 0)
  due-new duplicate s tid path = omega arith
  due-new new s tid path = ground (arith, readable-le path)

  due-hint :
      (v : DedupVerdict) (s : SessionId) (e raw_kind : String) (path : Option String)
      → due sid v (attention_hint s e raw_kind path) ≡ 0
  due-hint new s e raw_kind path = refl
  due-hint duplicate s e raw_kind path = refl

  due-news :
      (event : WireEvent) (mgr : SessionManager) (w : World)
      → due sid (record_event os event mgr w).0 event.kind ≤ news sid event_id event.kind mgr
  unfolding record_event
  due-news event mgr w = by_kind event.kind
    where
      by_kind :
          (kind : WireEventKind)
          → due sid
              (record_event os
                (record { schema_version = event.schema_version; kind = kind })
                mgr
                w).0
              kind
            ≤ news sid event_id kind mgr
      by_kind (turn_complete s tid path) = due-new (record_dedup s tid.as_str path mgr).0 s tid path
      by_kind (attention_hint s e raw_kind path) =
          omega (arith, due-hint (record_dedup s e path mgr).0 s e raw_kind path)
      by_kind (hook_degraded reason none) = omega arith
      by_kind (hook_degraded reason (some s)) = omega arith

  due_next-news :
      (task : Task Stream) (mgr : SessionManager) (w : World)
      → due_next os take_frame read sid task (mgr, w) ≤ news_all sid event_id (log task) mgr
  due_next-news (receiving stream) mgr w = omega arith
  due_next-news (recording event) mgr w = omega (arith, due-news event mgr w)
  due_next-news (fetching s path) mgr w = omega arith
  due_next-news (reading s path last) mgr w = omega arith
  due_next-news (storing s probe turn) mgr w = omega arith
  due_next-news (judging probe turn) mgr w = omega arith
  due_next-news (failing e) mgr w = omega arith
  due_next-news (finished r) mgr w = omega arith

  due_at-news :
      (i : ℕ) (tasks : List (Task Stream)) (mgr : SessionManager) (w : World)
      → due_at os take_frame read sid i tasks (mgr, w) ≤ news_all sid event_id (log_at i tasks) mgr
  due_at-news i [] mgr w = omega arith
  due_at-news zero (task ∷ tasks) mgr w = due_next-news task mgr w
  due_at-news (suc i) (task ∷ tasks) mgr w = due_at-news i tasks mgr w

  due_choice-news :
      (choice : Choice os take_frame read) (p : Process os take_frame read)
      → due_choice os take_frame read sid choice p
        ≤ news_all sid event_id (log_choice os take_frame read choice p) p.shared.0
  due_choice-news (go i) p = due_at-news i p.tasks p.shared.0 p.shared.1
  due_choice-news (accept stream) p = omega arith
  due_choice-news (outside change) p = omega arith

  due_in_run-news :
      (choices : List (Choice os take_frame read)) (p : Process os take_frame read)
      → due_in_run os take_frame read sid choices p
        ≤ news_in_run os take_frame read sid event_id choices p
  due_in_run-news [] p = omega arith
  due_in_run-news (choice ∷ choices) p = omega (
    arith,
    due_choice-news choice p,
    due_in_run-news choices (advance os take_frame read choice p),
  )

  -- If every connection that brings an event of a session brings the same one, by its id, then a
  -- process that starts without handlers reads the session's transcript at most once: however many
  -- such connections there are, however their handlers interleave with each other, with other
  -- sessions' and with other programs, and whatever the sessions are at first.
  pub reads_in_run-le :
      (choices : List (Choice os take_frame read)) (shared : Shared os take_frame read)
      → AllCarry os take_frame read (HasId sid event_id) choices
      → reads_in_run os take_frame read sid choices (record { tasks = []; shared = shared }) ≤ 1
  reads_in_run-le choices shared carry =
      let p : Process os take_frame read = record { tasks = []; shared = shared } in
      omega (
        arith,
        reads_in_run-due_in_run os take_frame read sid choices p,
        due_in_run-news choices p,
        news_in_run-le os take_frame read sid event_id choices p
            (trace-AllKinds os take_frame read (HasId sid event_id) choices p carry tt),
      )
