-- ===== src/Daemon/Tasks/Reads.antt =====
-- How often the handlers read the transcript of a session: once for each new turn with a path.
use pulse_narrator.Prelude.{
  ℕ, zero, suc, ◌+◌, String, ◌≡◌, refl, List, [], ◌∷◌, ◌++◌, Option, none, some, Bool-cases, str_eq,
  if◌then◌else◌, inl, inr, arith,
}
use pulse_narrator.Prelude.Results.{Result, ok, err}
use pulse_narrator.System.{Os}
use pulse_narrator.Core.Event.{SessionId}
use pulse_narrator.Core.Source.{ProbeOutcome, TurnRead}
use pulse_narrator.Core.Wire.{
  WireEvent, WireEventKind, turn_complete, attention_hint, hook_degraded,
}
use pulse_narrator.Source.Error.{SourceError}
use pulse_narrator.Daemon.Error.{DaemonError}
use pulse_narrator.Daemon.Session.{DedupVerdict, new, duplicate, SessionManager, record_event}
use pulse_narrator.Daemon.Connection.{check_version}
use pulse_narrator.Daemon.Tasks.{
  Task, receiving, recording, fetching, reading, storing, judging, failing, finished, gated,
  received, recorded, fetched, answered, Shared, step, step_at, Choice, go, accept, outside,
  Process, advance, run,
}

-- One for a path that can be read.
abbrev pub readable : Option String → ℕ
readable none = 0
readable (some path) = if str_eq path "" then 0 else 1

module _ (sid : SessionId) where
  -- One if the session is this one.
  abbrev pub mine : SessionId → ℕ → ℕ
  mine s n = if str_eq s.as_str sid.as_str then n else 0

  -- The reads of the session that a handler still has before it.
  abbrev pub owed : {Stream : Type 0} → Task Stream → ℕ
  owed (fetching s path) = mine s (readable path)
  owed (reading s path last) = mine s 1
  owed _ = 0

  abbrev pub owed_all : {Stream : Type 0} → List (Task Stream) → ℕ
  owed_all [] = 0
  owed_all (task ∷ tasks) = owed task + owed_all tasks

  -- The reads of the session in the next step of a task.
  abbrev pub reads : {Stream : Type 0} → Task Stream → ℕ
  reads (reading s path last) = mine s 1
  reads _ = 0

  -- One for a new turn of the session with a path.
  abbrev pub due : DedupVerdict → WireEventKind → ℕ
  due new (turn_complete s tid path) = mine s (readable path)
  due new (attention_hint s event_id raw_kind path) = 0
  due new (hook_degraded reason s) = 0
  due duplicate kind = 0

  module _ (Stream : Type 0) where
    gated-owed :
        (event : WireEvent) (r : Result DaemonError (Unit {0}))
        → owed {Stream = Stream} (gated event r) ≡ 0
    unfolding gated
    gated-owed event (ok u) = refl
    gated-owed event (err e) = refl

    received-owed : (r : Result DaemonError WireEvent) → owed {Stream = Stream} (received r) ≡ 0
    unfolding received
    received-owed (ok event) = gated-owed event (check_version event)
    received-owed (err e) = refl

    recorded-owed :
        (v : DedupVerdict) (kind : WireEventKind)
        → owed {Stream = Stream} (recorded v kind) ≡ due v kind
    unfolding recorded
    recorded-owed duplicate kind = refl
    recorded-owed new (turn_complete s tid path) = refl
    recorded-owed new (attention_hint s event_id raw_kind path) = refl
    recorded-owed new (hook_degraded reason s) = refl

    fetched-owed :
        (s : SessionId) (path : Option String) (last : Option ℕ)
        → owed {Stream = Stream} (fetched s path last) ≡ mine s (readable path)
    unfolding fetched
    fetched-owed s none last = ground arith
    fetched-owed s (some path) last = elim (Bool-cases (str_eq path "")) [
      | inl nothing ↦ rw (fetched, nothing) (ground arith)
      | inr there ↦ rw (fetched, there) refl
    ]

    answered-owed :
        (s : SessionId) (r : Result SourceError (ProbeOutcome × TurnRead))
        → owed {Stream = Stream} (answered s r) ≡ 0
    unfolding answered
    answered-owed s (ok (probe, turn)) = refl
    answered-owed s (err e) = refl

    owed_all-accept :
        (tasks : List (Task Stream)) (stream : Stream)
        → owed_all (tasks ++ (receiving stream ∷ [])) ≡ owed_all tasks
    owed_all-accept [] stream = refl
    owed_all-accept (task ∷ tasks) stream = omega (arith, owed_all-accept tasks stream)

module _ (os : Os) {Stream : Type 0} (take_frame : Stream → Result DaemonError WireEvent)
    (read : String → Option ℕ → os.World → Result SourceError (ProbeOutcome × TurnRead) × os.World)
    (sid : SessionId) where
  open os use {World}

  -- The reads that the next step of a task makes due.
  abbrev pub due_next : Task Stream → Shared os take_frame read → ℕ
  due_next (recording event) (mgr, w) = due sid (record_event os event mgr w).0 event.kind
  due_next _ _ = 0

  abbrev pub reads_at : ℕ → List (Task Stream) → ℕ
  reads_at i [] = 0
  reads_at zero (task ∷ tasks) = reads sid task
  reads_at (suc i) (task ∷ tasks) = reads_at i tasks

  abbrev pub due_at : ℕ → List (Task Stream) → Shared os take_frame read → ℕ
  due_at i [] shared = 0
  due_at zero (task ∷ tasks) shared = due_next task shared
  due_at (suc i) (task ∷ tasks) shared = due_at i tasks shared

  step-owed :
      (task : Task Stream) (mgr : SessionManager) (w : World)
      → reads sid task + owed sid (step os take_frame read task (mgr, w)).0
        ≡ owed sid task + due_next task (mgr, w)
  unfolding step
  step-owed (receiving stream) mgr w = omega (arith, received-owed sid Stream (take_frame stream))
  step-owed (recording event) mgr w =
      omega (arith, recorded-owed sid Stream (record_event os event mgr w).0 event.kind)
  step-owed (fetching s path) mgr w = omega (arith, fetched-owed sid Stream s path _)
  step-owed (reading s path last) mgr w =
      omega (arith, answered-owed sid Stream s (read path last w).0)
  step-owed (storing s probe turn) mgr w = refl
  step-owed (judging probe turn) mgr w = refl
  step-owed (failing e) mgr w = refl
  step-owed (finished r) mgr w = refl

  step_at-owed :
      (i : ℕ) (tasks : List (Task Stream)) (mgr : SessionManager) (w : World)
      → reads_at i tasks + owed_all sid (step_at os take_frame read i tasks (mgr, w)).0
        ≡ owed_all sid tasks + due_at i tasks (mgr, w)
  unfolding step_at
  step_at-owed i [] mgr w = refl
  step_at-owed zero (task ∷ tasks) mgr w = omega (arith, step-owed task mgr w)
  step_at-owed (suc i) (task ∷ tasks) mgr w = omega (arith, step_at-owed i tasks mgr w)

  -- The reads of the session over a schedule, and the new turns of it with a path.
  abbrev pub reads_next : Choice os take_frame read → Process os take_frame read → ℕ
  reads_next (go i) p = reads_at i p.tasks
  reads_next (accept stream) p = 0
  reads_next (outside change) p = 0

  abbrev pub due_choice : Choice os take_frame read → Process os take_frame read → ℕ
  due_choice (go i) p = due_at i p.tasks p.shared
  due_choice (accept stream) p = 0
  due_choice (outside change) p = 0

  abbrev pub reads_in_run : List (Choice os take_frame read) → Process os take_frame read → ℕ
  reads_in_run [] p = 0
  reads_in_run (choice ∷ choices) p =
      reads_next choice p + reads_in_run choices (advance os take_frame read choice p)

  abbrev pub due_in_run : List (Choice os take_frame read) → Process os take_frame read → ℕ
  due_in_run [] p = 0
  due_in_run (choice ∷ choices) p =
      due_choice choice p + due_in_run choices (advance os take_frame read choice p)

  advance-owed :
      (choice : Choice os take_frame read) (p : Process os take_frame read)
      → reads_next choice p + owed_all sid (advance os take_frame read choice p).tasks
        ≡ owed_all sid p.tasks + due_choice choice p
  unfolding advance
  advance-owed (go i) p = step_at-owed i p.tasks p.shared.0 p.shared.1
  advance-owed (accept stream) p = omega (arith, owed_all-accept sid Stream p.tasks stream)
  advance-owed (outside change) p = omega arith

  -- Over any schedule, the reads of a session's transcripts and those that handlers still have
  -- before them at the end are together as many as those that handlers had before them at first
  -- and one for each turn with a path that was found new.
  pub reads_in_run-due_in_run :
      (choices : List (Choice os take_frame read)) (p : Process os take_frame read)
      → reads_in_run choices p + owed_all sid (run os take_frame read choices p).tasks
        ≡ owed_all sid p.tasks + due_in_run choices p
  unfolding run
  reads_in_run-due_in_run [] p = omega arith
  reads_in_run-due_in_run (choice ∷ choices) p = omega (
    arith,
    advance-owed choice p,
    reads_in_run-due_in_run choices (advance os take_frame read choice p),
  )
