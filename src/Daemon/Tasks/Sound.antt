-- ===== src/Daemon/Tasks/Sound.antt =====
-- An invariant of the whole process, under any schedule.
use pulse_narrator.Prelude.{
  ℕ, zero, suc, String, ◌≡◌, refl, List, [], ◌∷◌, ◌++◌, Option, none, some, true, Bool-cases,
  str_eq, inl, inr,
}
use pulse_narrator.Prelude.Results.{Result, ok, err}
use pulse_narrator.System.{Os}
use pulse_narrator.Core.Event.{SessionId}
use pulse_narrator.Core.Source.{ProbeOutcome, TurnRead}
use pulse_narrator.Core.Wire.{
  WireEvent, WireEventKind, turn_complete, attention_hint, hook_degraded,
}
use pulse_narrator.Source.Error.{SourceError}
use pulse_narrator.Daemon.Error.{DaemonError}
use pulse_narrator.Daemon.Session.{DedupVerdict, new, duplicate, SessionManager, get}
use pulse_narrator.Daemon.Session.Sound.{
  IsSound, Keeps, has_event, record_dedup-IsSound, entry_or_default-IsSound,
  set_last_read_offset-IsSound, record_dedup-has_event, record_dedup-Keeps, entry_or_default-Keeps,
  set_last_read_offset-Keeps,
}
use pulse_narrator.Daemon.Connection.{check_version}
use pulse_narrator.Daemon.Tasks.{
  Task, receiving, recording, fetching, reading, storing, judging, failing, finished, gated,
  received, recorded, fetched, answered, step, step_at, Choice, go, accept, outside, Process,
  advance, run,
}
use pulse_narrator.Daemon.Session.Same.{record_kind}
use pulse_narrator.Daemon.Tasks.Order.{record_event-record_kind}

-- A handler that goes on with a turn has its session tracked, with an event.
abbrev pub Owns : {Stream : Type 0} → SessionManager → Task Stream → Type 0
Owns mgr (fetching sid path) = has_event (get sid mgr) ≡ true
Owns mgr (reading sid path last) = has_event (get sid mgr) ≡ true
Owns mgr (storing sid probe turn) = has_event (get sid mgr) ≡ true
Owns mgr _ = Unit

abbrev pub AllOwn : {Stream : Type 0} → SessionManager → List (Task Stream) → Type 0
AllOwn mgr [] = Unit
AllOwn mgr (task ∷ tasks) = Owns mgr task × AllOwn mgr tasks

record_kind-IsSound :
    (kind : WireEventKind) (mgr : SessionManager) → IsSound mgr → IsSound (record_kind kind mgr)
record_kind-IsSound (turn_complete sid tid path) mgr s =
    record_dedup-IsSound sid tid.as_str path mgr s
record_kind-IsSound (attention_hint sid event_id raw_kind path) mgr s =
    record_dedup-IsSound sid event_id path mgr s
record_kind-IsSound (hook_degraded reason none) mgr s = s
record_kind-IsSound (hook_degraded reason (some sid)) mgr s = entry_or_default-IsSound sid mgr s

record_kind-Keeps : (kind : WireEventKind) (mgr : SessionManager) → Keeps mgr (record_kind kind mgr)
record_kind-Keeps (turn_complete sid tid path) mgr = record_dedup-Keeps sid tid.as_str path mgr
record_kind-Keeps (attention_hint sid event_id raw_kind path) mgr =
    record_dedup-Keeps sid event_id path mgr
record_kind-Keeps (hook_degraded reason none) mgr = λ sid h. h
record_kind-Keeps (hook_degraded reason (some sid)) mgr = entry_or_default-Keeps sid mgr

module _ (Stream : Type 0) where
  Keeps-Owns :
      (mgr mgr' : SessionManager) (task : Task Stream)
      → Keeps mgr mgr'
      → Owns mgr task
      → Owns mgr' task
  Keeps-Owns mgr mgr' (receiving stream) k h = tt
  Keeps-Owns mgr mgr' (recording event) k h = tt
  Keeps-Owns mgr mgr' (fetching sid path) k h = k sid h
  Keeps-Owns mgr mgr' (reading sid path last) k h = k sid h
  Keeps-Owns mgr mgr' (storing sid probe turn) k h = k sid h
  Keeps-Owns mgr mgr' (judging probe turn) k h = tt
  Keeps-Owns mgr mgr' (failing e) k h = tt
  Keeps-Owns mgr mgr' (finished r) k h = tt

  Keeps-AllOwn :
      (mgr mgr' : SessionManager) (tasks : List (Task Stream))
      → Keeps mgr mgr'
      → AllOwn mgr tasks
      → AllOwn mgr' tasks
  Keeps-AllOwn mgr mgr' [] k h = tt
  Keeps-AllOwn mgr mgr' (task ∷ tasks) k (h, hs) =
      (Keeps-Owns mgr mgr' task k h, Keeps-AllOwn mgr mgr' tasks k hs)

  AllOwn-accept :
      (mgr : SessionManager) (tasks : List (Task Stream)) (stream : Stream)
      → AllOwn mgr tasks
      → AllOwn mgr (tasks ++ (receiving stream ∷ []))
  AllOwn-accept mgr [] stream h = (tt, tt)
  AllOwn-accept mgr (task ∷ tasks) stream (h, hs) = (h, AllOwn-accept mgr tasks stream hs)

  gated-Owns :
      (mgr : SessionManager) (event : WireEvent) (r : Result DaemonError (Unit {0}))
      → Owns {Stream = Stream} mgr (gated event r)
  unfolding gated
  gated-Owns mgr event (ok u) = tt
  gated-Owns mgr event (err e) = tt

  received-Owns :
      (mgr : SessionManager) (r : Result DaemonError WireEvent)
      → Owns {Stream = Stream} mgr (received r)
  unfolding received
  received-Owns mgr (ok event) = gated-Owns mgr event (check_version event)
  received-Owns mgr (err e) = tt

  recorded-Owns :
      (v : DedupVerdict) (kind : WireEventKind) (mgr : SessionManager)
      → Owns {Stream = Stream} (record_kind kind mgr) (recorded v kind)
  unfolding recorded
  recorded-Owns duplicate kind mgr = tt
  recorded-Owns new (turn_complete sid tid path) mgr =
      record_dedup-has_event sid tid.as_str path mgr sid refl
  recorded-Owns new (attention_hint sid event_id raw_kind path) mgr = tt
  recorded-Owns new (hook_degraded reason sid) mgr = tt

  fetched-Owns :
      (sid : SessionId) (path : Option String) (last : Option ℕ) (mgr : SessionManager)
      → has_event (get sid mgr) ≡ true
      → Owns {Stream = Stream} mgr (fetched sid path last)
  unfolding fetched
  fetched-Owns sid none last mgr h = tt
  fetched-Owns sid (some path) last mgr h = elim (Bool-cases (str_eq path "")) [
    | inl nothing ↦ rw (fetched, nothing) tt
    | inr there ↦ rw (fetched, there) h
  ]

  answered-Owns :
      (sid : SessionId) (r : Result SourceError (ProbeOutcome × TurnRead)) (mgr : SessionManager)
      → has_event (get sid mgr) ≡ true
      → Owns {Stream = Stream} mgr (answered sid r)
  unfolding answered
  answered-Owns sid (ok (probe, turn)) mgr h = h
  answered-Owns sid (err e) mgr h = tt

module _ (os : Os) {Stream : Type 0} (take_frame : Stream → Result DaemonError WireEvent)
    (read : String
      → Option ℕ
      → os.World
      → Result SourceError (ProbeOutcome × TurnRead) × os.World) where
  open os use {World}

  -- Sound sessions are left sound, with every event kept, and the task owns its session again.
  abbrev After : SessionManager → SessionManager → Type 0
  After mgr mgr' = IsSound mgr' × Keeps mgr mgr'

  step-IsSound :
      (task : Task Stream) (mgr : SessionManager) (w : World)
      → IsSound mgr
      → Owns mgr task
      → After mgr (step os take_frame read task (mgr, w)).1.0
        × Owns (step os take_frame read task (mgr, w)).1.0 (step os take_frame read task (mgr, w)).0
  unfolding step
  step-IsSound (receiving stream) mgr w s h =
      ((s, λ sid k. k), received-Owns Stream mgr (take_frame stream))
  step-IsSound (recording event) mgr w s h =
      rw (record_event-record_kind os take_frame read event mgr w) (
        (record_kind-IsSound event.kind mgr s, record_kind-Keeps event.kind mgr),
        recorded-Owns Stream _ event.kind mgr,
      )
  step-IsSound (fetching sid path) mgr w s h =
      ((s, λ sid k. k), fetched-Owns Stream sid path _ mgr h)
  step-IsSound (reading sid path last) mgr w s h =
      ((s, λ sid k. k), answered-Owns Stream sid _ mgr h)
  step-IsSound (storing sid probe turn) mgr w s h = (
    (
      set_last_read_offset-IsSound sid turn.read_offset mgr h s,
      set_last_read_offset-Keeps sid turn.read_offset mgr,
    ),
    tt,
  )
  step-IsSound (judging probe turn) mgr w s h = ((s, λ sid k. k), tt)
  step-IsSound (failing e) mgr w s h = ((s, λ sid k. k), tt)
  step-IsSound (finished r) mgr w s h = ((s, λ sid k. k), tt)

  step_at-IsSound :
      (i : ℕ) (tasks : List (Task Stream)) (mgr : SessionManager) (w : World)
      → IsSound mgr
      → AllOwn mgr tasks
      → After mgr (step_at os take_frame read i tasks (mgr, w)).1.0
        × AllOwn
            (step_at os take_frame read i tasks (mgr, w)).1.0
            (step_at os take_frame read i tasks (mgr, w)).0
  unfolding step_at
  step_at-IsSound i [] mgr w s h = ((s, λ sid k. k), tt)
  step_at-IsSound zero (task ∷ tasks) mgr w s (h, hs) =
      let ((sound, keeps), owns) = step-IsSound task mgr w s h in
      ((sound, keeps), (owns, Keeps-AllOwn Stream mgr _ tasks keeps hs))
  step_at-IsSound (suc i) (task ∷ tasks) mgr w s (h, hs) =
      let ((sound, keeps), own) = step_at-IsSound i tasks mgr w s hs in
      ((sound, keeps), (Keeps-Owns Stream mgr _ task keeps h, own))

  -- The invariant.
  abbrev pub IsSoundProcess : Process os take_frame read → Type 0
  IsSoundProcess p = IsSound p.shared.0 × AllOwn p.shared.0 p.tasks

  advance-IsSoundProcess :
      (choice : Choice os take_frame read) (p : Process os take_frame read)
      → IsSoundProcess p
      → IsSoundProcess (advance os take_frame read choice p)
  unfolding advance
  advance-IsSoundProcess (go i) p (s, h) =
      let ((sound, keeps), own) = step_at-IsSound i p.tasks p.shared.0 p.shared.1 s h in
      (sound, own)
  advance-IsSoundProcess (accept stream) p (s, h) =
      (s, AllOwn-accept Stream p.shared.0 p.tasks stream h)
  advance-IsSoundProcess (outside change) p (s, h) = (s, h)

  -- If it is so at first, it is so after any schedule: no session is tracked twice, a receipt
  -- counter fits in a u64, a session has an event exactly if its counter is above 0, a session
  -- without an event has no read offset, and a handler that goes on with a turn has its session
  -- tracked with an event, so that the offset of its read is not dropped.
  pub run-IsSoundProcess :
      (choices : List (Choice os take_frame read)) (p : Process os take_frame read)
      → IsSoundProcess p
      → IsSoundProcess (run os take_frame read choices p)
  unfolding run
  run-IsSoundProcess [] p s = s
  run-IsSoundProcess (choice ∷ choices) p s =
      run-IsSoundProcess choices (advance os take_frame read choice p)
        (advance-IsSoundProcess choice p s)
