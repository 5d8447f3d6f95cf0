-- ===== src/Daemon/Tasks/Reported.antt =====
-- A degraded hook that a connection reports, however the handlers interleave.
use pulse_narrator.Prelude.{
  ℕ, zero, suc, ◌+◌, ◌≤◌, String, ◌≡◌, refl, List, [], ◌∷◌, ◌++◌, Option, arith,
}
use pulse_narrator.Prelude.Results.{Result, ok}
use pulse_narrator.System.{Os, WritesFiles}
use pulse_narrator.Core.Source.{ProbeOutcome, TurnRead}
use pulse_narrator.Core.Wire.{WireEvent}
use pulse_narrator.Source.Error.{SourceError}
use pulse_narrator.Daemon.Error.{DaemonError}
use pulse_narrator.Daemon.Degraded.{marker_path, mark_degraded}
use pulse_narrator.Daemon.Session.{SessionManager}
use pulse_narrator.Daemon.Connection.Marked.{degrades, IsMarked}
use pulse_narrator.Daemon.Tasks.{
  Task, receiving, recording, fetching, reading, storing, judging, failing, finished, received,
  step, step_at, Choice, go, accept, outside, Process, advance, run,
}
use pulse_narrator.Daemon.Tasks.Complaints.{made, made_at, made_next, made_in_run, LeaveMarker}
use pulse_narrator.Daemon.Tasks.Marked.{complaint-IsMarked}
use pulse_narrator.Daemon.Tasks.Done.{AllDone, AllDone-ind}

module _ (os : Os) {Stream : Type 0} (take_frame : Stream → Result DaemonError WireEvent)
    (read : String
      → Option ℕ
      → os.World
      → Result SourceError (ProbeOutcome × TurnRead) × os.World) where
  open os use {World}

  -- One for a handler that has a degraded event before it.
  abbrev coming_next : Task Stream → ℕ
  coming_next (recording event) = degrades event.kind
  coming_next _ = 0

  abbrev coming : Task Stream → ℕ
  coming (receiving stream) = coming_next (received (take_frame stream))
  coming task = coming_next task

  abbrev coming_all : List (Task Stream) → ℕ
  coming_all [] = 0
  coming_all (task ∷ tasks) = coming task + coming_all tasks

  coming_next-le : (task : Task Stream) → coming_next task ≤ coming task
  coming_next-le (receiving stream) = omega arith
  coming_next-le (recording event) = omega arith
  coming_next-le (fetching s path) = omega arith
  coming_next-le (reading s path last) = omega arith
  coming_next-le (storing s probe turn) = omega arith
  coming_next-le (judging probe turn) = omega arith
  coming_next-le (failing e) = omega arith
  coming_next-le (finished r) = omega arith

  coming_all-accept :
      (tasks : List (Task Stream)) (stream : Stream)
      → coming_all (tasks ++ (receiving stream ∷ [])) ≡ coming_all tasks + coming (receiving stream)
  coming_all-accept [] stream = omega arith
  coming_all-accept (task ∷ tasks) stream = omega (arith, coming_all-accept tasks stream)

  AllDone-coming_all : (tasks : List (Task Stream)) → AllDone tasks → coming_all tasks ≡ 0
  AllDone-coming_all =
      AllDone-ind (λ tasks. coming_all tasks ≡ 0) refl (λ r tasks rest. omega (arith, rest))

  -- A step passes on the event before it, or makes its complaint.
  step-coming :
      (task : Task Stream) (mgr : SessionManager) (w : World)
      → coming task
        ≤ made os take_frame read task w + coming (step os take_frame read task (mgr, w)).0
  unfolding step
  step-coming (receiving stream) mgr w =
      omega (arith, coming_next-le (received (take_frame stream)))
  step-coming (recording event) mgr w = omega arith
  step-coming (fetching s path) mgr w = omega arith
  step-coming (reading s path last) mgr w = omega arith
  step-coming (storing s probe turn) mgr w = omega arith
  step-coming (judging probe turn) mgr w = omega arith
  step-coming (failing e) mgr w = omega arith
  step-coming (finished r) mgr w = omega arith

  step_at-coming :
      (i : ℕ) (tasks : List (Task Stream)) (mgr : SessionManager) (w : World)
      → coming_all tasks
        ≤ made_at os take_frame read i tasks w
          + coming_all (step_at os take_frame read i tasks (mgr, w)).0
  unfolding step_at
  step_at-coming i [] mgr w = omega arith
  step_at-coming zero (task ∷ tasks) mgr w = omega (arith, step-coming task mgr w)
  step_at-coming (suc i) (task ∷ tasks) mgr w = omega (arith, step_at-coming i tasks mgr w)

  -- The connections of a schedule that bring a degraded event.
  abbrev pub reports_by : Choice os take_frame read → ℕ
  reports_by (go i) = 0
  reports_by (accept stream) = coming (receiving stream)
  reports_by (outside change) = 0

  abbrev pub reports : List (Choice os take_frame read) → ℕ
  reports [] = 0
  reports (choice ∷ choices) = reports_by choice + reports choices

  advance-coming :
      (choice : Choice os take_frame read) (p : Process os take_frame read)
      → coming_all p.tasks + reports_by choice
        ≤ made_next os take_frame read choice p
          + coming_all (advance os take_frame read choice p).tasks
  unfolding advance
  advance-coming (go i) p = omega (arith, step_at-coming i p.tasks p.shared.0 p.shared.1)
  advance-coming (accept stream) p = omega (arith, coming_all-accept p.tasks stream)
  advance-coming (outside change) p = omega arith

  run-coming :
      (choices : List (Choice os take_frame read)) (p : Process os take_frame read)
      → coming_all p.tasks + reports choices
        ≤ made_in_run os take_frame read choices p
          + coming_all (run os take_frame read choices p).tasks
  unfolding run
  run-coming [] p = omega arith
  run-coming (choice ∷ choices) p =
      omega
        (arith, advance-coming choice p, run-coming choices (advance os take_frame read choice p))

  -- If some connection brings the event of a degraded hook, then the marker is there when all
  -- handlers have finished, however they interleave with each other and with other programs.
  -- Conditions: HOME is set, the marker can be written to a file system that keeps what is written,
  -- and neither the reading nor other programs take it away.
  pub report-IsMarked :
      (path : String)
      → WritesFiles os
      → ((w : World) → marker_path os w ≡ ok path)
      → ((reason : String) (w : World) → (mark_degraded os reason w).0 ≡ ok tt)
      → ((s : String) (last : Option ℕ) (w : World)
          → IsMarked os path w
          → IsMarked os path (read s last w).1)
      → (choices : List (Choice os take_frame read)) (p : Process os take_frame read)
      → LeaveMarker os take_frame read path choices
      → 1 ≤ reports choices
      → AllDone (run os take_frame read choices p).tasks
      → IsMarked os path (run os take_frame read choices p).shared.1
  report-IsMarked path files has_home writable leaves choices p left some_report done =
      complaint-IsMarked os take_frame read path files has_home writable leaves choices p left
        (omega (
          arith,
          run-coming choices p,
          some_report,
          AllDone-coming_all (run os take_frame read choices p).tasks done,
        ))
        done
