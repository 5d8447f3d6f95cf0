-- ===== src/Daemon/Tasks/Complaints.antt =====
-- The complaints that handlers make, and those that they carry.
use pulse_narrator.Prelude.{
  ℕ, zero, suc, ◌+◌, String, ◌≡◌, refl, List, [], ◌∷◌, ◌++◌, Option, arith,
}
use pulse_narrator.Prelude.Results.{Result, ok, err}
use pulse_narrator.System.{Os}
use pulse_narrator.Core.Event.{SessionId}
use pulse_narrator.Core.Source.{ProbeOutcome, TurnRead}
use pulse_narrator.Core.Wire.{WireEvent}
use pulse_narrator.Source.Error.{SourceError}
use pulse_narrator.Daemon.Error.{DaemonError}
use pulse_narrator.Daemon.Connection.Loud.{complaint, complaint_of}
use pulse_narrator.Daemon.Connection.Marked.{complaints, degrades, IsMarked}
use pulse_narrator.Daemon.Tasks.{
  Task, receiving, recording, reading, storing, judging, failing, answered, Choice, go, accept,
  outside, Process, advance,
}
use pulse_narrator.Daemon.Tasks.Done.{AllDone, AllDone-ind}

module _ {Stream : Type 0} where
  -- The complaints that a handler carries and has not marked.
  abbrev pub carried : Task Stream → ℕ
  carried (storing s probe turn) = complaints (complaint_of probe turn.verdict)
  carried (judging probe turn) = complaints (complaint_of probe turn.verdict)
  carried (failing e) = 1
  carried _ = 0

  abbrev pub carried_all : List (Task Stream) → ℕ
  carried_all [] = 0
  carried_all (task ∷ tasks) = carried task + carried_all tasks

  pub carried_all-accept :
      (tasks : List (Task Stream)) (stream : Stream)
      → carried_all (tasks ++ (receiving stream ∷ [])) ≡ carried_all tasks
  carried_all-accept [] stream = refl
  carried_all-accept (task ∷ tasks) stream = omega (arith, carried_all-accept tasks stream)

  pub AllDone-carried_all : (tasks : List (Task Stream)) → AllDone tasks → carried_all tasks ≡ 0
  AllDone-carried_all =
      AllDone-ind (λ tasks. carried_all tasks ≡ 0) refl (λ r tasks rest. omega (arith, rest))

pub carried-answered :
    (Stream : Type 0) (s : SessionId) (r : Result SourceError (ProbeOutcome × TurnRead))
    → carried (answered {Stream = Stream} s r) ≡ complaints (complaint r)
unfolding answered
carried-answered Stream s (ok (probe, turn)) = refl
carried-answered Stream s (err e) = refl

module _ (os : Os) {Stream : Type 0} (take_frame : Stream → Result DaemonError WireEvent)
    (read : String
      → Option ℕ
      → os.World
      → Result SourceError (ProbeOutcome × TurnRead) × os.World) where
  open os use {World, text_at}

  -- The complaints that the next step of a task makes.
  abbrev pub made : Task Stream → World → ℕ
  made (recording event) w = degrades event.kind
  made (reading s path last) w = complaints (complaint (read path last w).0)
  made _ w = 0

  abbrev pub made_at : ℕ → List (Task Stream) → World → ℕ
  made_at i [] w = 0
  made_at zero (task ∷ tasks) w = made task w
  made_at (suc i) (task ∷ tasks) w = made_at i tasks w

  abbrev pub made_next : Choice os take_frame read → Process os take_frame read → ℕ
  made_next (go i) p = made_at i p.tasks p.shared.1
  made_next (accept stream) p = 0
  made_next (outside change) p = 0

  -- The complaints of a schedule: readings that find drift, find a cut file or fail, and recorded
  -- events of a degraded hook.
  abbrev pub made_in_run : List (Choice os take_frame read) → Process os take_frame read → ℕ
  made_in_run [] p = 0
  made_in_run (choice ∷ choices) p =
      made_next choice p + made_in_run choices (advance os take_frame read choice p)

  module _ (path : String) where
    -- The other programs leave a marker that is there.
    abbrev pub LeaveMarker : List (Choice os take_frame read) → Type 0
    LeaveMarker [] = Unit
    LeaveMarker (go i ∷ choices) = LeaveMarker choices
    LeaveMarker (accept stream ∷ choices) = LeaveMarker choices
    LeaveMarker (outside change ∷ choices) =
        ((w : World) → IsMarked os path w → IsMarked os path (change w)) × LeaveMarker choices
