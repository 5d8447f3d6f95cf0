-- ===== src/Daemon/Tasks/Whole.antt =====
-- An invariant of the process where sessions keep their transcripts and transcripts only grow.
use pulse_narrator.Prelude.{
  ℕ, zero, suc, String, ◌<>◌, ◌≡◌, List, [], ◌∷◌, Option, none, some, eq_iff, inl, inr, arith,
}
use pulse_narrator.Prelude.Results.{Result, ok, Result-cases}
use pulse_narrator.System.{Os}
use pulse_narrator.Core.Event.{SessionId}
use pulse_narrator.Core.Wire.{
  WireEvent, WireEventKind, turn_complete, attention_hint, hook_degraded,
}
use pulse_narrator.Source.Error as SourceError
use pulse_narrator.Source.Error.{SourceError}
use pulse_narrator.Source.Probe.{Json}
use pulse_narrator.Source.Reader.{read_complete}
use pulse_narrator.Source.Reader.ReadOnly.{read_complete-keeps}
use pulse_narrator.Source.Reader.Growing.{HasBytes, IsAhead, read_complete-HasBytes}
use pulse_narrator.Daemon.Error.{DaemonError}
use pulse_narrator.Daemon.Degraded.{mark_degraded}
use pulse_narrator.Daemon.Session.{SessionManager, record_event}
use pulse_narrator.Daemon.Connection.{last_read_offset_of}
use pulse_narrator.Daemon.Connection.Loud.{complain, complaint_of, handle_read_outcome-complain}
use pulse_narrator.Daemon.Connection.Offset.{
  last_read_offset_of-record_kind, last_read_offset_of-set,
}
use pulse_narrator.Daemon.Tasks.{
  Task, receiving, recording, fetching, reading, storing, judging, failing, finished, answered,
  step, step_at, Choice, go, accept, outside, Process, advance, run,
}
use pulse_narrator.Daemon.Tasks.Order.{record_event-record_kind}
use mathlib.Core.Path.{subst}
use pulse_narrator.Daemon.Tasks.Growing.{
  IsHome, AreAhead, Fits, AllFit, Grows, Grows-IsAhead, Grows-Fits, Grows-AllFit, AllFit-accept,
  received-Fits, recorded-Fits, fetched-Fits,
}

module _ (os : Os) (transcript_of : String → String) (json : Json) (hash : List ℕ → ℕ)
    {Stream : Type 0} (take_frame : Stream → Result DaemonError WireEvent)
    (sleeps_grow : (d : ℕ) (w : os.World) → Grows os transcript_of w (os.sleep d w))
    (reads_grow : (path : String) (w : os.World) → Grows os transcript_of w (os.read path w).1)
    (marks_grow : (reason : String) (w : os.World)
      → Grows os transcript_of w (mark_degraded os reason w).1) where
  open os use {World}

  read_complete-Grows :
      (path : String) (last : Option ℕ) (w : World)
      → Grows os transcript_of w (read_complete os json hash path last w).1
  read_complete-Grows path last w p n h =
      read_complete-keeps os path json hash {P = HasBytes os p n} (λ d v b. sleeps_grow d v p n b)
        (λ v b. reads_grow path v p n b) last w h

  complain-Grows : (o : Option String) (w : World) → Grows os transcript_of w (complain os o w)
  complain-Grows none w = λ p n h. h
  complain-Grows (some reason) w = marks_grow reason w

  record_event-Grows :
      (event : WireEvent) (mgr : SessionManager) (w : World)
      → Grows os transcript_of w (record_event os event mgr w).2
  unfolding record_event
  record_event-Grows event mgr w = by_kind event.kind
    where
      by_kind :
          (kind : WireEventKind)
          → Grows os transcript_of w
              (record_event os
                (record { schema_version = event.schema_version; kind = kind })
                mgr
                w).2
      by_kind (turn_complete s tid p) = λ p n h. h
      by_kind (attention_hint s event_id raw_kind p) = λ p n h. h
      by_kind (hook_degraded reason s) = marks_grow reason w

  answered-Fits :
      (sid : SessionId) (path : String) (last : Option ℕ) (w : World)
      → path ≡ transcript_of sid.as_str
      → IsAhead os last path w
      → let (answer, w') = read_complete os json hash path last w in
        Fits os transcript_of take_frame w' (answered sid answer)
  unfolding answered
  answered-Fits sid path last w home ahead =
      elim (Result-cases (read_complete os json hash path last w).0) [
        | inr (e, failed) ↦ rw (answered, failed) tt
        | inl ((p, r), read) ↦
            let (whole, bytes) =
              read_complete-HasBytes os json hash path (λ n v. reads_grow path v path n) last w p r
                ahead read in
            rw (answered, read)
              (
                whole,
                subst (λ q. HasBytes os q r.read_offset (read_complete os json hash path last w).1)
                    home bytes,
              )
      ]

  -- What a step leaves.
  abbrev Left : World → Task Stream → SessionManager → World → Type 0
  Left w task' mgr' w' =
      Grows os transcript_of w w'
      × AreAhead os transcript_of mgr' w'
      × Fits os transcript_of take_frame w' task'

  grown :
      (mgr : SessionManager) (w w' : World)
      → Grows os transcript_of w w'
      → AreAhead os transcript_of mgr w
      → AreAhead os transcript_of mgr w'
  grown mgr w w' g a =
      λ sid. Grows-IsAhead os transcript_of w w' (last_read_offset_of sid mgr) _ g (a sid)

  step-Left :
      (task : Task Stream) (mgr : SessionManager) (w : World)
      → AreAhead os transcript_of mgr w
      → Fits os transcript_of take_frame w task
      → let (task', (mgr', w')) = step os take_frame (read_complete os json hash) task (mgr, w) in
        Left w task' mgr' w'
  unfolding step
  step-Left (receiving stream) mgr w a h =
      (λ p n b. b, a, received-Fits os transcript_of take_frame w (take_frame stream) h)
  step-Left (recording event) mgr w a h =
      let g = record_event-Grows event mgr w in
      (
        g,
        rw (record_event-record_kind os take_frame (read_complete os json hash) event mgr w) (λ sid.
            rw (last_read_offset_of-record_kind event.kind sid mgr)
              (grown mgr w (record_event os event mgr w).2 g a sid)),
        recorded-Fits os transcript_of take_frame _ _ event.kind h,
      )
  step-Left (fetching sid path) mgr w a h =
      (λ p n b. b, a, fetched-Fits os transcript_of take_frame w sid path _ h (a sid))
  step-Left (reading sid path last) mgr w a (home, ahead) =
      let g = read_complete-Grows path last w in
      (g, grown mgr w _ g a, answered-Fits sid path last w home ahead)
  step-Left (storing sid probe turn) mgr w a (whole, bytes) = (
    λ p n b. b,
    λ other.
        last_read_offset_of-set (λ o. IsAhead os o (transcript_of other.as_str) w) sid other
          turn.read_offset mgr
          (λ own.
            let same : sid.as_str ≡ other.as_str = ground (arith, eq_iff sid.as_str other.as_str) in
            rw same at bytes)
          (a other),
    whole,
  )
  step-Left (judging probe turn) mgr w a h =
      let g = complain-Grows (complaint_of probe turn.verdict) w in
      rw (handle_read_outcome-complain os probe turn w) (g, grown mgr w _ g a, tt)
  step-Left (failing e) mgr w a h =
      let g = marks_grow ("read failed: " <> SourceError.display e) w in (g, grown mgr w _ g a, tt)
  step-Left (finished r) mgr w a h = (λ p n b. b, a, tt)

  step_at-Left :
      (i : ℕ) (tasks : List (Task Stream)) (mgr : SessionManager) (w : World)
      → AreAhead os transcript_of mgr w
      → AllFit os transcript_of take_frame w tasks
      → let (tasks', (mgr', w')) =
          step_at os take_frame (read_complete os json hash) i tasks (mgr, w) in
        Grows os transcript_of w w'
        × AreAhead os transcript_of mgr' w'
        × AllFit os transcript_of take_frame w' tasks'
  unfolding step_at
  step_at-Left i [] mgr w a h = (λ p n b. b, a, tt)
  step_at-Left zero (task ∷ tasks) mgr w a (h, hs) =
      let (g, ahead, fits) = step-Left task mgr w a h in
      (g, ahead, (fits, Grows-AllFit os transcript_of take_frame w _ tasks g hs))
  step_at-Left (suc i) (task ∷ tasks) mgr w a (h, hs) =
      let (g, ahead, fits) = step_at-Left i tasks mgr w a hs in
      (g, ahead, (Grows-Fits os transcript_of take_frame w _ task g h, fits))

  -- Every accepted connection brings turns on its session's transcript alone, and the other programs
  -- let no transcript shrink.
  abbrev pub AllGrow : List (Choice os take_frame (read_complete os json hash)) → Type 0
  AllGrow [] = Unit
  AllGrow (go i ∷ choices) = AllGrow choices
  AllGrow (accept stream ∷ choices) =
      ((event : WireEvent) → take_frame stream ≡ ok event → IsHome os transcript_of event.kind)
      × AllGrow choices
  AllGrow (outside change ∷ choices) =
      ((w : World) → Grows os transcript_of w (change w)) × AllGrow choices

  -- The invariant.
  abbrev pub IsWhole : Process os take_frame (read_complete os json hash) → Type 0
  IsWhole p =
      AreAhead os transcript_of p.shared.0 p.shared.1
      × AllFit os transcript_of take_frame p.shared.1 p.tasks

  -- No false alarm over a transcript that grows: if each session keeps its transcript, and no
  -- transcript shrinks, be it in a sleep, in a reading of a file, in the writing of the marker or
  -- between the steps of the handlers, then
  -- under any schedule every stored offset lies within the transcript of its session and no handler
  -- carries the verdict that a transcript was cut, if it is so at first.
  pub run-IsWhole :
      (choices : List (Choice os take_frame (read_complete os json hash)))
      (p : Process os take_frame (read_complete os json hash))
      → AllGrow choices
      → IsWhole p
      → IsWhole (run os take_frame (read_complete os json hash) choices p)
  unfolding run advance
  run-IsWhole [] p all whole = whole
  run-IsWhole (go i ∷ choices) p all (a, h) =
      let (_, ahead, fits) = step_at-Left i p.tasks p.shared.0 p.shared.1 a h in
      run-IsWhole choices (advance os take_frame (read_complete os json hash) (go i) p) all
        (ahead, fits)
  run-IsWhole (accept stream ∷ choices) p (one, all) (a, h) =
      run-IsWhole choices (advance os take_frame (read_complete os json hash) (accept stream) p) all
        (a, AllFit-accept os transcript_of take_frame p.shared.1 p.tasks stream one h)
  run-IsWhole (outside change ∷ choices) p (g, all) (a, h) =
      run-IsWhole choices (advance os take_frame (read_complete os json hash) (outside change) p)
        all
        (
          grown p.shared.0 p.shared.1 (change p.shared.1) (g p.shared.1) a,
          Grows-AllFit os transcript_of take_frame p.shared.1 (change p.shared.1) p.tasks
              (g p.shared.1) h,
        )
