-- ===== src/Daemon/Tasks/Marked.antt =====
-- The DEGRADED marker, however the handlers of connection.rs interleave.
use pulse_narrator.Prelude.{
  ℕ, zero, suc, ◌+◌, ◌≤◌, String, ◌≡◌, List, [], ◌∷◌, ◌⊎◌, inl, inr, Option, arith,
}
use pulse_narrator.Prelude.Results.{Result, ok}
use pulse_narrator.System.{Os, WritesFiles}
use pulse_narrator.Core.Source.{ProbeOutcome, TurnRead}
use pulse_narrator.Core.Wire.{WireEvent}
use pulse_narrator.Source.Error.{SourceError}
use pulse_narrator.Daemon.Error.{DaemonError}
use pulse_narrator.Daemon.Degraded.{marker_path, mark_degraded}
use pulse_narrator.Daemon.Session.{SessionManager}
use pulse_narrator.Daemon.Connection.Loud.{complaint_of, handle_read_outcome-complain}
use pulse_narrator.Daemon.Connection.Marked.{
  IsMarked, mark_degraded-IsMarked, complain-IsMarked, complain-keeps, record_event-IsMarked,
  record_event-keeps,
}
use pulse_narrator.Daemon.Tasks.{
  Task, receiving, recording, fetching, reading, storing, judging, failing, finished, step, step_at,
  Choice, go, accept, outside, Process, advance, run,
}
use pulse_narrator.Daemon.Tasks.Complaints.{
  carried, carried_all, carried-answered, carried_all-accept, AllDone-carried_all, made, made_at,
  made_next, made_in_run, LeaveMarker,
}
use pulse_narrator.Daemon.Tasks.Done.{AllDone}

module _ (os : Os) {Stream : Type 0} (take_frame : Stream → Result DaemonError WireEvent)
    (read : String → Option ℕ → os.World → Result SourceError (ProbeOutcome × TurnRead) × os.World)
    (path : String) (files : WritesFiles os)
    (has_home : (w : os.World) → marker_path os w ≡ ok path)
    (writable : (reason : String) (w : os.World) → (mark_degraded os reason w).0 ≡ ok tt)
    (leaves : (s : String) (last : Option ℕ) (w : os.World)
      → IsMarked os path w
      → IsMarked os path (read s last w).1) where
  open os use {World}

  -- A step passes on what it carries and what it makes, or leaves the marker.
  step-IsMarked :
      (task : Task Stream) (mgr : SessionManager) (w : World)
      → (carried task + made os take_frame read task w
          ≤ carried (step os take_frame read task (mgr, w)).0)
        ⊎ IsMarked os path (step os take_frame read task (mgr, w)).1.1
  unfolding step
  step-IsMarked (receiving stream) mgr w = inl (omega arith)
  step-IsMarked (recording event) mgr w =
      elim (record_event-IsMarked os path files has_home writable event mgr w) [
        | inl none_made ↦ inl (omega (arith, none_made))
        | inr marked ↦ inr marked
      ]
  step-IsMarked (fetching s p) mgr w = inl (omega arith)
  step-IsMarked (reading s p last) mgr w =
      inl (omega (arith, carried-answered Stream s (read p last w).0))
  step-IsMarked (storing s probe turn) mgr w = inl (omega arith)
  step-IsMarked (judging probe turn) mgr w =
      rw (handle_read_outcome-complain os probe turn w)
        (elim (complain-IsMarked os path files has_home writable (complaint_of probe turn.verdict)
          w) [ inl none_made ↦ inl (omega (arith, none_made)) | inr marked ↦ inr marked ])
  step-IsMarked (failing e) mgr w = inr (mark_degraded-IsMarked os path files has_home writable _ w)
  step-IsMarked (finished r) mgr w = inl (omega arith)

  -- A marker that is there stays.
  step-keeps :
      (task : Task Stream) (mgr : SessionManager) (w : World)
      → IsMarked os path w
      → IsMarked os path (step os take_frame read task (mgr, w)).1.1
  unfolding step
  step-keeps (receiving stream) mgr w h = h
  step-keeps (recording event) mgr w h =
      record_event-keeps os path files has_home writable event mgr w h
  step-keeps (fetching s p) mgr w h = h
  step-keeps (reading s p last) mgr w h = leaves p last w h
  step-keeps (storing s probe turn) mgr w h = h
  step-keeps (judging probe turn) mgr w h =
      rw (handle_read_outcome-complain os probe turn w)
        (complain-keeps os path files has_home writable (complaint_of probe turn.verdict) w h)
  step-keeps (failing e) mgr w h = mark_degraded-IsMarked os path files has_home writable _ w
  step-keeps (finished r) mgr w h = h

  step_at-IsMarked :
      (i : ℕ) (tasks : List (Task Stream)) (mgr : SessionManager) (w : World)
      → (carried_all tasks + made_at os take_frame read i tasks w
          ≤ carried_all (step_at os take_frame read i tasks (mgr, w)).0)
        ⊎ IsMarked os path (step_at os take_frame read i tasks (mgr, w)).1.1
  unfolding step_at
  step_at-IsMarked i [] mgr w = inl (omega arith)
  step_at-IsMarked zero (task ∷ tasks) mgr w = elim (step-IsMarked task mgr w) [
    | inl less ↦ inl (omega (arith, less))
    | inr marked ↦ inr marked
  ]
  step_at-IsMarked (suc i) (task ∷ tasks) mgr w = elim (step_at-IsMarked i tasks mgr w) [
    | inl less ↦ inl (omega (arith, less))
    | inr marked ↦ inr marked
  ]

  step_at-keeps :
      (i : ℕ) (tasks : List (Task Stream)) (mgr : SessionManager) (w : World)
      → IsMarked os path w
      → IsMarked os path (step_at os take_frame read i tasks (mgr, w)).1.1
  unfolding step_at
  step_at-keeps i [] mgr w h = h
  step_at-keeps zero (task ∷ tasks) mgr w h = step-keeps task mgr w h
  step_at-keeps (suc i) (task ∷ tasks) mgr w h = step_at-keeps i tasks mgr w h

  advance-IsMarked :
      (choice : Choice os take_frame read) (p : Process os take_frame read)
      → (carried_all p.tasks + made_next os take_frame read choice p
          ≤ carried_all (advance os take_frame read choice p).tasks)
        ⊎ IsMarked os path (advance os take_frame read choice p).shared.1
  unfolding advance
  advance-IsMarked (go i) p = step_at-IsMarked i p.tasks p.shared.0 p.shared.1
  advance-IsMarked (accept stream) p = inl (omega (arith, carried_all-accept p.tasks stream))
  advance-IsMarked (outside change) p = inl (omega arith)

  -- A marker that is there stays, whatever the handlers do, as long as the other programs and the
  -- reading leave it and it can be written.
  pub run_keeps_marker :
      (choices : List (Choice os take_frame read)) (p : Process os take_frame read)
      → LeaveMarker os take_frame read path choices
      → IsMarked os path p.shared.1
      → IsMarked os path (run os take_frame read choices p).shared.1
  unfolding run advance
  run_keeps_marker [] p _ h = h
  run_keeps_marker (go i ∷ choices) p left h =
      run_keeps_marker choices (advance os take_frame read (go i) p) left
        (step_at-keeps i p.tasks p.shared.0 p.shared.1 h)
  run_keeps_marker (accept stream ∷ choices) p left h =
      run_keeps_marker choices (advance os take_frame read (accept stream) p) left h
  run_keeps_marker (outside change ∷ choices) p (now, left) h =
      run_keeps_marker choices (advance os take_frame read (outside change) p) left
        (now p.shared.1 h)

  LeaveMarker-tail :
      (choice : Choice os take_frame read) (choices : List (Choice os take_frame read))
      → LeaveMarker os take_frame read path (choice ∷ choices)
      → LeaveMarker os take_frame read path choices
  LeaveMarker-tail (go i) choices left = left
  LeaveMarker-tail (accept stream) choices left = left
  LeaveMarker-tail (outside change) choices (now, left) = left

  run-IsMarked :
      (choices : List (Choice os take_frame read)) (p : Process os take_frame read)
      → LeaveMarker os take_frame read path choices
      → (carried_all p.tasks + made_in_run os take_frame read choices p
          ≤ carried_all (run os take_frame read choices p).tasks)
        ⊎ IsMarked os path (run os take_frame read choices p).shared.1
  unfolding run
  run-IsMarked [] p left = inl (omega arith)
  run-IsMarked (choice ∷ choices) p left =
      let p' = advance os take_frame read choice p in
      let rest = LeaveMarker-tail choice choices left in
      elim (advance-IsMarked choice p) [
        | inr marked ↦ inr (run_keeps_marker choices p' rest marked)
        | inl now ↦ elim (run-IsMarked choices p' rest) [
          | inr marked ↦ inr marked
          | inl later ↦ inl (omega (arith, now, later))
        ]
      ]

  -- Loud, never silent, under any schedule: if a reading found drift or a cut file or failed, or a
  -- degraded hook was recorded, then the marker is there when all handlers have finished. Conditions:
  -- HOME is set, the marker can be written to a file system that keeps what is written, and neither
  -- the reading nor other programs take it away.
  pub complaint-IsMarked :
      (choices : List (Choice os take_frame read)) (p : Process os take_frame read)
      → LeaveMarker os take_frame read path choices
      → 1 ≤ made_in_run os take_frame read choices p
      → AllDone (run os take_frame read choices p).tasks
      → IsMarked os path (run os take_frame read choices p).shared.1
  complaint-IsMarked choices p left some_made done =
      let no_more = AllDone-carried_all (run os take_frame read choices p).tasks done in
      elim (run-IsMarked choices p left) [
        | inr marked ↦ marked
        | inl less ↦ absurd (omega (arith, less, no_more, some_made))
      ]
