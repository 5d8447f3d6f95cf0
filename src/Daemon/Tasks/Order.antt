-- ===== src/Daemon/Tasks/Order.antt =====
-- However the handlers interleave, the sessions are those of one delivery after another.
use pulse_narrator.Prelude.{
  ℕ, zero, suc, String, ◌≡◌, refl, ◌∙◌, List, [], ◌∷◌, ◌++◌, Option, none, some,
}
use pulse_narrator.Prelude.Results.{Result}
use pulse_narrator.System.{Os}
use pulse_narrator.Core.Source.{ProbeOutcome, TurnRead}
use pulse_narrator.Core.Wire.{
  WireEvent, WireEventKind, turn_complete, attention_hint, hook_degraded,
}
use pulse_narrator.Source.Error.{SourceError}
use pulse_narrator.Daemon.Error.{DaemonError}
use pulse_narrator.Daemon.Session.{SessionManager, record_event}
use pulse_narrator.Daemon.Session.Same.{
  IsSame, set_last_read_offset-IsSame, record_kind, record_kind-IsSame, record_all,
  record_all-append,
}
use pulse_narrator.Daemon.Tasks.{
  Task, receiving, recording, fetching, reading, storing, judging, failing, finished, step, step_at,
  Choice, go, accept, outside, Process, advance, run,
}

-- What holds of all that is recorded.
abbrev pub AllKinds : (WireEventKind → Type 0) → List WireEventKind → Type 0
AllKinds P [] = Unit
AllKinds P (kind ∷ kinds) = P kind × AllKinds P kinds

pub AllKinds-append :
    (P : WireEventKind → Type 0) (xs ys : List WireEventKind)
    → AllKinds P (xs ++ ys)
    → AllKinds P xs × AllKinds P ys
AllKinds-append P [] ys h = (tt, h)
AllKinds-append P (x ∷ xs) ys (h, hs) = let (a, b) = AllKinds-append P xs ys hs in ((h, a), b)

pub AllKinds-map :
    (P Q : WireEventKind → Type 0) (xs : List WireEventKind)
    → ((kind : WireEventKind) → P kind → Q kind)
    → AllKinds P xs
    → AllKinds Q xs
AllKinds-map P Q [] f h = tt
AllKinds-map P Q (x ∷ xs) f (h, hs) = (f x h, AllKinds-map P Q xs f hs)

pub AllKinds-both :
    (P : WireEventKind → Type 0) (xs ys : List WireEventKind)
    → AllKinds P xs
    → AllKinds P ys
    → AllKinds P (xs ++ ys)
AllKinds-both P [] ys a b = b
AllKinds-both P (x ∷ xs) ys (h, hs) b = (h, AllKinds-both P xs ys hs b)

-- What a task records in its next step.
abbrev pub log : {Stream : Type 0} → Task Stream → List WireEventKind
log (recording event) = event.kind ∷ []
log _ = []

abbrev pub log_at : {Stream : Type 0} → ℕ → List (Task Stream) → List WireEventKind
log_at i [] = []
log_at zero (task ∷ tasks) = log task
log_at (suc i) (task ∷ tasks) = log_at i tasks

module _ (os : Os) {Stream : Type 0} (take_frame : Stream → Result DaemonError WireEvent)
    (read : String
      → Option ℕ
      → os.World
      → Result SourceError (ProbeOutcome × TurnRead) × os.World) where
  open os use {World}

  pub record_event-record_kind :
      (event : WireEvent) (mgr : SessionManager) (w : World)
      → (record_event os event mgr w).1 ≡ record_kind event.kind mgr
  unfolding record_event
  record_event-record_kind event mgr w = by_kind event.kind
    where
      by_kind :
          (kind : WireEventKind)
          → (record_event os
              (record { schema_version = event.schema_version; kind = kind })
              mgr
              w).1
            ≡ record_kind kind mgr
      by_kind (turn_complete sid tid path) = refl
      by_kind (attention_hint sid event_id raw_kind path) = refl
      by_kind (hook_degraded reason none) = refl
      by_kind (hook_degraded reason (some sid)) = refl

  step-IsSame :
      (task : Task Stream) (mgr mgr' : SessionManager) (w : World)
      → IsSame mgr mgr'
      → IsSame (step os take_frame read task (mgr, w)).1.0 (record_all (log task) mgr')
  unfolding step
  step-IsSame (receiving stream) mgr mgr' w same = same
  step-IsSame (recording event) mgr mgr' w same =
      rw (record_event-record_kind event mgr w) (record_kind-IsSame event.kind mgr mgr' same)
  step-IsSame (fetching sid path) mgr mgr' w same = same
  step-IsSame (reading sid path last) mgr mgr' w same = same
  step-IsSame (storing sid probe turn) mgr mgr' w same =
      λ other. set_last_read_offset-IsSame sid turn.read_offset mgr other ∙ same other
  step-IsSame (judging probe turn) mgr mgr' w same = same
  step-IsSame (failing e) mgr mgr' w same = same
  step-IsSame (finished r) mgr mgr' w same = same

  step_at-IsSame :
      (i : ℕ) (tasks : List (Task Stream)) (mgr mgr' : SessionManager) (w : World)
      → IsSame mgr mgr'
      → IsSame (step_at os take_frame read i tasks (mgr, w)).1.0 (record_all (log_at i tasks) mgr')
  unfolding step_at
  step_at-IsSame i [] mgr mgr' w same = same
  step_at-IsSame zero (task ∷ tasks) mgr mgr' w same = step-IsSame task mgr mgr' w same
  step_at-IsSame (suc i) (task ∷ tasks) mgr mgr' w same = step_at-IsSame i tasks mgr mgr' w same

  -- What the process records with a choice, and with many, in the order in which the lock is taken.
  abbrev pub log_choice :
      Choice os take_frame read → Process os take_frame read → List WireEventKind
  log_choice (go i) p = log_at i p.tasks
  log_choice (accept stream) p = []
  log_choice (outside change) p = []

  abbrev pub trace :
      List (Choice os take_frame read) → Process os take_frame read → List WireEventKind
  trace [] p = []
  trace (choice ∷ choices) p =
      log_choice choice p ++ trace choices (advance os take_frame read choice p)

  advance-IsSame :
      (choice : Choice os take_frame read) (p : Process os take_frame read) (mgr' : SessionManager)
      → IsSame p.shared.0 mgr'
      → IsSame
          (advance os take_frame read choice p).shared.0
          (record_all (log_choice choice p) mgr')
  unfolding advance
  advance-IsSame (go i) p mgr' same = step_at-IsSame i p.tasks p.shared.0 mgr' p.shared.1 same
  advance-IsSame (accept stream) p mgr' same = same
  advance-IsSame (outside change) p mgr' same = same

  run-IsSame_from :
      (choices : List (Choice os take_frame read)) (p : Process os take_frame read)
      (mgr' : SessionManager)
      → IsSame p.shared.0 mgr'
      → IsSame (run os take_frame read choices p).shared.0 (record_all (trace choices p) mgr')
  unfolding run
  run-IsSame_from [] p mgr' same = same
  run-IsSame_from (choice ∷ choices) p mgr' same = rw (record_all-append (log_choice choice p)) (
      run-IsSame_from choices (advance os take_frame read choice p) _
        (advance-IsSame choice p mgr' same))

  -- However handlers, new connections and other programs interleave, and whatever the reader answers,
  -- the sessions are, but for their read offsets, those that the events leave when they are recorded
  -- one after another, in the order in which their handlers took the lock.
  pub run-IsSame :
      (choices : List (Choice os take_frame read)) (p : Process os take_frame read)
      → IsSame (run os take_frame read choices p).shared.0 (record_all (trace choices p) p.shared.0)
  run-IsSame choices p = run-IsSame_from choices p p.shared.0 (λ sid. refl)
