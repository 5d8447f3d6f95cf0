-- ===== src/Daemon/Tasks/Silent.antt =====
-- When there is a marker and when there is none, however the handlers interleave.
use pulse_narrator.Prelude.{
  ℕ, zero, suc, ◌+◌, ◌≤◌, String, ◌≡◌, ◌↔◌, refl, List, [], ◌∷◌, Option, none, some, arith,
  Bool-cases, str_eq, inl, inr,
}
use pulse_narrator.Prelude.Results.{Result, ok, err}
use pulse_narrator.System.{Os, WritesFiles}
use pulse_narrator.Core.Event.{SessionId}
use pulse_narrator.Core.Source.{ProbeOutcome, TurnRead}
use pulse_narrator.Core.Wire.{
  WireEvent, WireEventKind, turn_complete, attention_hint, hook_degraded,
}
use pulse_narrator.Source.Error.{SourceError}
use pulse_narrator.Daemon.Error.{DaemonError}
use pulse_narrator.Daemon.Degraded.{marker_path, mark_degraded}
use pulse_narrator.Daemon.Session.{DedupVerdict, new, duplicate, SessionManager}
use pulse_narrator.Daemon.Connection.{check_version}
use pulse_narrator.Daemon.Connection.Loud.{complaint_of, handle_read_outcome-complain}
use pulse_narrator.Daemon.Connection.Marked.{IsMarked, complain-none, record_event-none}
use pulse_narrator.Daemon.Tasks.{
  Task, receiving, recording, fetching, reading, storing, judging, failing, finished, gated,
  received, recorded, fetched, step, step_at, Choice, go, accept, outside, Process, advance, run,
}
use pulse_narrator.Daemon.Tasks.Complaints.{
  carried, carried_all, carried-answered, carried_all-accept, made, made_at, made_in_run,
  LeaveMarker,
}
use pulse_narrator.Daemon.Tasks.Done.{AllDone}
use pulse_narrator.Daemon.Tasks.Marked.{complaint-IsMarked}
use native.Mathlib.Decide.{dec_lt}

module _ (Stream : Type 0) where
  carried-gated :
      (event : WireEvent) (r : Result DaemonError (Unit {0}))
      → carried {Stream = Stream} (gated event r) ≡ 0
  unfolding gated
  carried-gated event (ok u) = refl
  carried-gated event (err e) = refl

  carried-received : (r : Result DaemonError WireEvent) → carried {Stream = Stream} (received r) ≡ 0
  unfolding received
  carried-received (ok event) = carried-gated event (check_version event)
  carried-received (err e) = refl

  carried-recorded :
      (v : DedupVerdict) (kind : WireEventKind) → carried {Stream = Stream} (recorded v kind) ≡ 0
  unfolding recorded
  carried-recorded duplicate kind = refl
  carried-recorded new (turn_complete s tid path) = refl
  carried-recorded new (attention_hint s event_id raw_kind path) = refl
  carried-recorded new (hook_degraded reason s) = refl

  carried-fetched :
      (s : SessionId) (path : Option String) (last : Option ℕ)
      → carried {Stream = Stream} (fetched s path last) ≡ 0
  unfolding fetched
  carried-fetched s none last = refl
  carried-fetched s (some path) last = elim (Bool-cases (str_eq path "")) [
    | inl nothing ↦ rw (fetched, nothing) refl
    | inr there ↦ rw (fetched, there) refl
  ]

module _ (os : Os) {Stream : Type 0} (take_frame : Stream → Result DaemonError WireEvent)
    (read : String → Option ℕ → os.World → Result SourceError (ProbeOutcome × TurnRead) × os.World)
    (path : String)
    (keeps_clean : (s : String) (last : Option ℕ) (w : os.World)
      → os.text_at path w ≡ none
      → os.text_at path (read s last w).1 ≡ none) where
  open os use {World, text_at}

  -- There is no marker.
  abbrev IsClean : World → Type 0
  IsClean w = text_at path w ≡ none

  -- The other programs make no marker.
  abbrev pub MakeNoMarker : List (Choice os take_frame read) → Type 0
  MakeNoMarker [] = Unit
  MakeNoMarker (go i ∷ choices) = MakeNoMarker choices
  MakeNoMarker (accept stream ∷ choices) = MakeNoMarker choices
  MakeNoMarker (outside change ∷ choices) =
      ((w : World) → text_at path w ≡ none → text_at path (change w) ≡ none) × MakeNoMarker choices

  step-IsClean :
      (task : Task Stream) (mgr : SessionManager) (w : World)
      → carried task + made os take_frame read task w ≡ 0
      → IsClean w
      → (carried (step os take_frame read task (mgr, w)).0 ≡ 0)
        × IsClean (step os take_frame read task (mgr, w)).1.1
  unfolding step
  step-IsClean (receiving stream) mgr w h clean =
      (carried-received Stream (take_frame stream), clean)
  step-IsClean (recording event) mgr w h clean = (
    carried-recorded Stream _ event.kind,
    rw (record_event-none os event mgr w (omega arith)) clean,
  )
  step-IsClean (fetching s p) mgr w h clean = (carried-fetched Stream s p _, clean)
  step-IsClean (reading s p last) mgr w h clean =
      (omega (arith, carried-answered Stream s (read p last w).0), keeps_clean p last w clean)
  step-IsClean (storing s probe turn) mgr w h clean = (omega arith, clean)
  step-IsClean (judging probe turn) mgr w h clean = (
    refl,
    rw
        (
          handle_read_outcome-complain os probe turn w,
          complain-none os (complaint_of probe turn.verdict) w (omega arith),
        )
        clean,
  )
  step-IsClean (failing e) mgr w h clean = absurd (omega arith)
  step-IsClean (finished r) mgr w h clean = (refl, clean)

  step_at-IsClean :
      (i : ℕ) (tasks : List (Task Stream)) (mgr : SessionManager) (w : World)
      → carried_all tasks + made_at os take_frame read i tasks w ≡ 0
      → IsClean w
      → (carried_all (step_at os take_frame read i tasks (mgr, w)).0 ≡ 0)
        × IsClean (step_at os take_frame read i tasks (mgr, w)).1.1
  unfolding step_at
  step_at-IsClean i [] mgr w h clean = (refl, clean)
  step_at-IsClean zero (task ∷ tasks) mgr w h clean =
      let (less, after) = step-IsClean task mgr w (omega arith) clean in
      (omega (arith, less), after)
  step_at-IsClean (suc i) (task ∷ tasks) mgr w h clean =
      let (less, after) = step_at-IsClean i tasks mgr w (omega arith) clean in
      (omega (arith, less), after)

  -- Without a complaint, made or carried, a marker that is not there does not come.
  run-IsClean :
      (choices : List (Choice os take_frame read)) (p : Process os take_frame read)
      → MakeNoMarker choices
      → carried_all p.tasks + made_in_run os take_frame read choices p ≡ 0
      → IsClean p.shared.1
      → IsClean (run os take_frame read choices p).shared.1
  unfolding run advance
  run-IsClean [] p no_marker h clean = clean
  run-IsClean (go i ∷ choices) p no_marker h clean =
      let (less, after) =
        step_at-IsClean i p.tasks p.shared.0 p.shared.1 (omega (arith, h)) clean in
      run-IsClean choices (advance os take_frame read (go i) p) no_marker (omega (arith, h, less))
        after
  run-IsClean (accept stream ∷ choices) p no_marker h clean =
      run-IsClean choices (advance os take_frame read (accept stream) p) no_marker
        (omega (arith, h, carried_all-accept p.tasks stream)) clean
  run-IsClean (outside change ∷ choices) p (now, no_marker) h clean =
      run-IsClean choices (advance os take_frame read (outside change) p) no_marker
        (omega (arith, h)) (now p.shared.1 clean)

  -- Loud, never silent, and no false alarm, under any schedule: if there is no marker and no handler
  -- at first, then when all handlers have finished the marker is there exactly if a reading found
  -- drift or a cut file or failed, or a degraded hook was recorded. Conditions: HOME is set, the
  -- marker can be written to a file system that keeps what is written, and neither the reading nor
  -- other programs make it or take it away.
  pub run-IsMarked_iff :
      WritesFiles os
      → ((w : World) → marker_path os w ≡ ok path)
      → ((reason : String) (w : World) → (mark_degraded os reason w).0 ≡ ok tt)
      → ((s : String) (last : Option ℕ) (w : World)
          → IsMarked os path w
          → IsMarked os path (read s last w).1)
      → (choices : List (Choice os take_frame read)) (mgr : SessionManager) (w : World)
      → LeaveMarker os take_frame read path choices
      → MakeNoMarker choices
      → text_at path w ≡ none
      → AllDone (run os take_frame read choices (record { tasks = []; shared = (mgr, w) })).tasks
      → IsMarked os path
          (run os take_frame read choices (record { tasks = []; shared = (mgr, w) })).shared.1
        ↔ (1 ≤ made_in_run os take_frame read choices (record { tasks = []; shared = (mgr, w) }))
  run-IsMarked_iff files has_home writable leaves choices mgr w left no_marker clean done =
      let p : Process os take_frame read = record { tasks = []; shared = (mgr, w) } in
      (
        λ (text, there). elim (dec_lt 0 (made_in_run os take_frame read choices p)) [
          | yes some_made ↦ some_made
          | no nothing ↦
              let after : text_at path (run os take_frame read choices p).shared.1 ≡ none =
                run-IsClean choices p no_marker (omega (arith, nothing)) clean in
              absurd (cc (there, after))
        ],
        λ some_made.
            complaint-IsMarked os take_frame read path files has_home writable leaves choices p left
              some_made done,
      )
