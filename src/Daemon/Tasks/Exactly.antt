-- ===== src/Daemon/Tasks/Exactly.antt =====
-- A turn that is delivered is read exactly once, when the handlers are done.
use pulse_narrator.Prelude.{
  ℕ, zero, suc, ◌+◌, ◌≤◌, String, ◌≡◌, refl, List, [], ◌∷◌, ◌++◌, Option, false, arith,
}
use pulse_narrator.Prelude.Results.{Result}
use pulse_narrator.System.{Os}
use pulse_narrator.Core.Event.{SessionId}
use pulse_narrator.Core.Source.{ProbeOutcome, TurnRead}
use pulse_narrator.Core.Wire.{WireEvent}
use pulse_narrator.Source.Error.{SourceError}
use pulse_narrator.Daemon.Error.{DaemonError}
use pulse_narrator.Daemon.Session.{SessionManager}
use pulse_narrator.Daemon.Session.Dedup.{repeats}
use pulse_narrator.Daemon.Tasks.{
  Task, receiving, recording, fetching, reading, storing, judging, failing, finished, received,
  Shared, step, step_at, Choice, go, accept, outside, Process, advance, run,
}
use pulse_narrator.Daemon.Session.Same.{set_last_read_offset-IsSame}
use pulse_narrator.Daemon.Tasks.Done.{AllDone, AllDone-ind}
use pulse_narrator.Daemon.Tasks.Order.{
  AllKinds, AllKinds-append, AllKinds-map, trace, record_event-record_kind, log, log_at, log_choice,
}
use pulse_narrator.Daemon.Tasks.Once.{HasId, seen, seen-IsSame, advance-seen}
use pulse_narrator.Daemon.Tasks.Carried.{AllCarry, AllCarry-map, trace-AllKinds}
use pulse_narrator.Daemon.Tasks.Retries.{reads_in_run-le}
use pulse_narrator.Daemon.Tasks.Reads.{
  owed_all, due_next, due_at, due_choice, due_in_run, reads_in_run, reads_in_run-due_in_run,
}
use pulse_narrator.Daemon.Tasks.Turns.{IsTurn, wanted, IsTurn-HasId, wanted-seen, due-seen}

module _ (os : Os) {Stream : Type 0} (take_frame : Stream → Result DaemonError WireEvent)
    (read : String → Option ℕ → os.World → Result SourceError (ProbeOutcome × TurnRead) × os.World)
    (sid : SessionId) (event_id : String) where
  open os use {World}

  -- One for a handler that has the turn before it.
  abbrev pub pending_next : Task Stream → ℕ
  pending_next (recording event) = wanted sid event_id event.kind
  pending_next _ = 0

  abbrev pub pending : Task Stream → ℕ
  pending (receiving stream) = pending_next (received (take_frame stream))
  pending task = pending_next task

  abbrev pub pending_all : List (Task Stream) → ℕ
  pending_all [] = 0
  pending_all (task ∷ tasks) = pending task + pending_all tasks

  pending_next-le : (task : Task Stream) → pending_next task ≤ pending task
  pending_next-le (receiving stream) = omega arith
  pending_next-le (recording event) = omega arith
  pending_next-le (fetching s path) = omega arith
  pending_next-le (reading s path last) = omega arith
  pending_next-le (storing s probe turn) = omega arith
  pending_next-le (judging probe turn) = omega arith
  pending_next-le (failing e) = omega arith
  pending_next-le (finished r) = omega arith

  -- A step makes the session see its turn if it was due, and never makes it forget it.
  step-turn :
      (task : Task Stream) (mgr : SessionManager) (w : World)
      → AllKinds (IsTurn sid event_id) (log task)
      → (seen sid event_id (step os take_frame read task (mgr, w)).1.0
          ≤ due_next os take_frame read sid task (mgr, w) + seen sid event_id mgr)
        × (pending task
            ≤ pending (step os take_frame read task (mgr, w)).0
              + seen sid event_id (step os take_frame read task (mgr, w)).1.0)
  unfolding step
  step-turn (receiving stream) mgr w h =
      (omega arith, omega (arith, pending_next-le (received (take_frame stream))))
  step-turn (recording event) mgr w (h, hs) =
      rw (record_event-record_kind os take_frame read event mgr w) (
        due-seen sid event_id os event mgr w h,
        omega (arith, wanted-seen sid event_id event.kind mgr h),
      )
  step-turn (fetching s path) mgr w h = (omega arith, omega arith)
  step-turn (reading s path last) mgr w h = (omega arith, omega arith)
  step-turn (storing s probe turn) mgr w h = (
    omega (
      arith,
      seen-IsSame sid event_id _ mgr (set_last_read_offset-IsSame s turn.read_offset mgr),
    ),
    omega arith,
  )
  step-turn (judging probe turn) mgr w h = (omega arith, omega arith)
  step-turn (failing e) mgr w h = (omega arith, omega arith)
  step-turn (finished r) mgr w h = (omega arith, omega arith)

  step_at-turn :
      (i : ℕ) (tasks : List (Task Stream)) (mgr : SessionManager) (w : World)
      → AllKinds (IsTurn sid event_id) (log_at i tasks)
      → (seen sid event_id (step_at os take_frame read i tasks (mgr, w)).1.0
          ≤ due_at os take_frame read sid i tasks (mgr, w) + seen sid event_id mgr)
        × (pending_all tasks
            ≤ pending_all (step_at os take_frame read i tasks (mgr, w)).0
              + seen sid event_id (step_at os take_frame read i tasks (mgr, w)).1.0)
  unfolding step_at
  step_at-turn i [] mgr w h = (omega arith, omega arith)
  step_at-turn zero (task ∷ tasks) mgr w h =
      let (due, kept) = step-turn task mgr w h in (due, omega (arith, kept))
  step_at-turn (suc i) (task ∷ tasks) mgr w h =
      let (due, kept) = step_at-turn i tasks mgr w h in (due, omega (arith, kept))

  -- One if a choice accepts a connection that brings the turn, and how many do.
  abbrev pub brought_by : Choice os take_frame read → ℕ
  brought_by (go i) = 0
  brought_by (accept stream) = pending (receiving stream)
  brought_by (outside change) = 0

  abbrev pub brought : List (Choice os take_frame read) → ℕ
  brought [] = 0
  brought (choice ∷ choices) = brought_by choice + brought choices

  pending_all-accept :
      (tasks : List (Task Stream)) (stream : Stream)
      → pending_all (tasks ++ (receiving stream ∷ []))
        ≡ pending_all tasks + pending (receiving stream)
  pending_all-accept [] stream = omega arith
  pending_all-accept (task ∷ tasks) stream = omega (arith, pending_all-accept tasks stream)

  advance-turn :
      (choice : Choice os take_frame read) (p : Process os take_frame read)
      → AllKinds (IsTurn sid event_id) (log_choice os take_frame read choice p)
      → (seen sid event_id (advance os take_frame read choice p).shared.0
          ≤ due_choice os take_frame read sid choice p + seen sid event_id p.shared.0)
        × (pending_all p.tasks + brought_by choice
            ≤ pending_all (advance os take_frame read choice p).tasks
              + seen sid event_id (advance os take_frame read choice p).shared.0)
  unfolding advance
  advance-turn (go i) p h =
      let (due, kept) = step_at-turn i p.tasks p.shared.0 p.shared.1 h in (due, omega (arith, kept))
  advance-turn (accept stream) p h = (omega arith, omega (arith, pending_all-accept p.tasks stream))
  advance-turn (outside change) p h = (omega arith, omega arith)

  run-turn :
      (choices : List (Choice os take_frame read)) (p : Process os take_frame read)
      → AllKinds (IsTurn sid event_id) (trace os take_frame read choices p)
      → 1 ≤ pending_all p.tasks + seen sid event_id p.shared.0 + brought choices
      → (seen sid event_id (run os take_frame read choices p).shared.0
          ≤ due_in_run os take_frame read sid choices p + seen sid event_id p.shared.0)
        × (1
            ≤ pending_all (run os take_frame read choices p).tasks
              + seen sid event_id (run os take_frame read choices p).shared.0)
  unfolding run
  run-turn [] p h some_left = (omega arith, omega arith)
  run-turn (choice ∷ choices) p h some_left =
      let (now, later) =
        AllKinds-append (IsTurn sid event_id) (log_choice os take_frame read choice p) _ h in
      let (due, kept) = advance-turn choice p now in
      let grows = advance-seen os take_frame read sid event_id choice p (
        AllKinds-map (IsTurn sid event_id) (HasId sid event_id) _ (IsTurn-HasId sid event_id)
          now) in
      let (rest, end) =
        run-turn choices (advance os take_frame read choice p) later
          (omega (arith, kept, grows, some_left)) in
      (omega (arith, due, rest), end)

  AllDone-none_left :
      (tasks : List (Task Stream))
      → AllDone tasks
      → (owed_all sid tasks ≡ 0) × (pending_all tasks ≡ 0)
  AllDone-none_left =
      AllDone-ind (λ tasks. (owed_all sid tasks ≡ 0) × (pending_all tasks ≡ 0)) (refl, refl)
        (λ r tasks (a, b). (omega (arith, a), omega (arith, b)))

  -- Of a turn that some connection brings, with a path, and that is not the last event of its
  -- session, the transcript is read exactly once by the time that all handlers have finished, if
  -- no handler runs at first and no connection brings another turn or hint of the session: however
  -- many bring this one, and however their handlers interleave with each other, with other
  -- sessions' and with other programs.
  pub delivered_turn_read_once :
      (choices : List (Choice os take_frame read)) (shared : Shared os take_frame read)
      → AllCarry os take_frame read (IsTurn sid event_id) choices
      → 1 ≤ brought choices
      → repeats sid event_id shared.0 ≡ false
      → AllDone (run os take_frame read choices (record { tasks = []; shared = shared })).tasks
      → reads_in_run os take_frame read sid choices (record { tasks = []; shared = shared }) ≡ 1
  delivered_turn_read_once choices shared carry some_brought fresh done =
      let p : Process os take_frame read = record { tasks = []; shared = shared } in
      let none_seen : seen sid event_id shared.0 ≡ 0 = rw fresh refl in
      let (due, end) =
        run-turn choices p
          (trace-AllKinds os take_frame read (IsTurn sid event_id) choices p carry tt)
          (omega (arith, some_brought)) in
      let (no_reads, no_turns) = AllDone-none_left (run os take_frame read choices p).tasks done in
      omega (
        arith,
        due,
        end,
        none_seen,
        no_reads,
        no_turns,
        reads_in_run-due_in_run os take_frame read sid choices p,
        reads_in_run-le os take_frame read sid event_id choices shared (
            AllCarry-map os take_frame read (IsTurn sid event_id) (HasId sid event_id)
              (IsTurn-HasId sid event_id) choices carry),
      )
