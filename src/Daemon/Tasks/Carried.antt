-- ===== src/Daemon/Tasks/Carried.antt =====
-- Connections that bring events of some kind only, and what their handlers record.
use pulse_narrator.Prelude.{
  ℕ, zero, suc, String, ◌≡◌, refl, List, [], ◌∷◌, ◌++◌, Option, none, some, str_eq, inl, inr,
  Bool-cases,
}
use pulse_narrator.Prelude.Results.{Result, ok, err}
use pulse_narrator.System.{Os}
use pulse_narrator.Core.Event.{SessionId}
use pulse_narrator.Core.Source.{ProbeOutcome, TurnRead}
use pulse_narrator.Core.Wire.{
  WireEvent, WireEventKind, turn_complete, attention_hint, hook_degraded,
}
use pulse_narrator.Source.Error.{SourceError}
use pulse_narrator.Daemon.Error.{DaemonError}
use pulse_narrator.Daemon.Session.{DedupVerdict, new, duplicate, SessionManager}
use pulse_narrator.Daemon.Connection.{check_version}
use pulse_narrator.Daemon.Tasks.{
  Task, receiving, recording, fetching, reading, storing, judging, failing, finished, gated,
  received, recorded, fetched, answered, step, step_at, Choice, go, accept, outside, Process,
  advance,
}
use pulse_narrator.Daemon.Tasks.Order.{AllKinds, AllKinds-both, log, log_at, trace}

module _ (os : Os) {Stream : Type 0} (take_frame : Stream → Result DaemonError WireEvent)
    (read : String → Option ℕ → os.World → Result SourceError (ProbeOutcome × TurnRead) × os.World)
    (P : WireEventKind → Type 0) where
  open os use {World}

  -- A connection whose event, if it brings one, is of some kind.
  abbrev pub Carries : Stream → Type 0
  Carries stream = (event : WireEvent) → take_frame stream ≡ ok event → P event.kind

  -- Every connection that a schedule accepts is such a one.
  abbrev pub AllCarry : List (Choice os take_frame read) → Type 0
  AllCarry [] = Unit
  AllCarry (go i ∷ choices) = AllCarry choices
  AllCarry (accept stream ∷ choices) = Carries stream × AllCarry choices
  AllCarry (outside change ∷ choices) = AllCarry choices

  -- A handler that has, or will have, no other event.
  abbrev Brings : Task Stream → Type 0
  Brings (receiving stream) = Carries stream
  Brings (recording event) = P event.kind
  Brings _ = Unit

  abbrev AllBring : List (Task Stream) → Type 0
  AllBring [] = Unit
  AllBring (task ∷ tasks) = Brings task × AllBring tasks

  gated-Brings :
      (event : WireEvent) (r : Result DaemonError (Unit {0}))
      → P event.kind
      → Brings (gated event r)
  unfolding gated
  gated-Brings event (ok u) h = h
  gated-Brings event (err e) h = tt

  received-Brings :
      (r : Result DaemonError WireEvent)
      → ((event : WireEvent) → r ≡ ok event → P event.kind)
      → Brings (received r)
  unfolding received
  received-Brings (ok event) h = gated-Brings event (check_version event) (h event refl)
  received-Brings (err e) h = tt

  recorded-Brings : (v : DedupVerdict) (kind : WireEventKind) → Brings (recorded v kind)
  unfolding recorded
  recorded-Brings duplicate kind = tt
  recorded-Brings new (turn_complete s tid path) = tt
  recorded-Brings new (attention_hint s e raw_kind path) = tt
  recorded-Brings new (hook_degraded reason s) = tt

  fetched-Brings :
      (s : SessionId) (path : Option String) (last : Option ℕ) → Brings (fetched s path last)
  unfolding fetched
  fetched-Brings s none last = tt
  fetched-Brings s (some path) last = elim (Bool-cases (str_eq path "")) [
    | inl nothing ↦ rw (fetched, nothing) tt
    | inr there ↦ rw (fetched, there) tt
  ]

  answered-Brings :
      (s : SessionId) (r : Result SourceError (ProbeOutcome × TurnRead)) → Brings (answered s r)
  unfolding answered
  answered-Brings s (ok (probe, turn)) = tt
  answered-Brings s (err e) = tt

  step-Brings :
      (task : Task Stream) (mgr : SessionManager) (w : World)
      → Brings task
      → Brings (step os take_frame read task (mgr, w)).0 × AllKinds P (log task)
  unfolding step
  step-Brings (receiving stream) mgr w h = (received-Brings (take_frame stream) h, tt)
  step-Brings (recording event) mgr w h = (recorded-Brings _ event.kind, (h, tt))
  step-Brings (fetching s path) mgr w h = (fetched-Brings s path _, tt)
  step-Brings (reading s path last) mgr w h = (answered-Brings s _, tt)
  step-Brings (storing s probe turn) mgr w h = (tt, tt)
  step-Brings (judging probe turn) mgr w h = (tt, tt)
  step-Brings (failing e) mgr w h = (tt, tt)
  step-Brings (finished r) mgr w h = (tt, tt)

  step_at-Brings :
      (i : ℕ) (tasks : List (Task Stream)) (mgr : SessionManager) (w : World)
      → AllBring tasks
      → AllBring (step_at os take_frame read i tasks (mgr, w)).0 × AllKinds P (log_at i tasks)
  unfolding step_at
  step_at-Brings i [] mgr w h = (tt, tt)
  step_at-Brings zero (task ∷ tasks) mgr w (h, hs) =
      let (next, logged) = step-Brings task mgr w h in ((next, hs), logged)
  step_at-Brings (suc i) (task ∷ tasks) mgr w (h, hs) =
      let (next, logged) = step_at-Brings i tasks mgr w hs in ((h, next), logged)

  accept-Brings :
      (tasks : List (Task Stream)) (stream : Stream)
      → AllBring tasks
      → Carries stream
      → AllBring (tasks ++ (receiving stream ∷ []))
  accept-Brings [] stream h c = (c, tt)
  accept-Brings (task ∷ tasks) stream (h, hs) c = (h, accept-Brings tasks stream hs c)

  -- So all that is recorded is of the kind.
  pub trace-AllKinds :
      (choices : List (Choice os take_frame read)) (p : Process os take_frame read)
      → AllCarry choices
      → AllBring p.tasks
      → AllKinds P (trace os take_frame read choices p)
  unfolding advance
  trace-AllKinds [] p c h = tt
  trace-AllKinds (go i ∷ choices) p c h =
      let (next, logged) = step_at-Brings i p.tasks p.shared.0 p.shared.1 h in
      AllKinds-both P (log_at i p.tasks) _ logged
        (trace-AllKinds choices (advance os take_frame read (go i) p) c next)
  trace-AllKinds (accept stream ∷ choices) p (carries, c) h =
      trace-AllKinds choices (advance os take_frame read (accept stream) p) c
        (accept-Brings p.tasks stream h carries)
  trace-AllKinds (outside change ∷ choices) p c h =
      trace-AllKinds choices (advance os take_frame read (outside change) p) c h

module _ (os : Os) {Stream : Type 0} (take_frame : Stream → Result DaemonError WireEvent)
    (read : String → Option ℕ → os.World → Result SourceError (ProbeOutcome × TurnRead) × os.World)
    (P Q : WireEventKind → Type 0) (weaker : (kind : WireEventKind) → P kind → Q kind) where
  pub AllCarry-map :
      (choices : List (Choice os take_frame read))
      → AllCarry os take_frame read P choices
      → AllCarry os take_frame read Q choices
  AllCarry-map [] all = tt
  AllCarry-map (go i ∷ choices) all = AllCarry-map choices all
  AllCarry-map (accept stream ∷ choices) (one, all) =
      (λ event h. weaker event.kind (one event h), AllCarry-map choices all)
  AllCarry-map (outside change ∷ choices) all = AllCarry-map choices all
