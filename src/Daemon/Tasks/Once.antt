-- ===== src/Daemon/Tasks/Once.antt =====
-- Deliveries of one event that are handled at the same time: one handler goes on with it.
use pulse_narrator.Prelude.{
  ℕ, zero, suc, ◌+◌, ◌≤◌, String, ◌≡◌, refl, sym, ap, ◌∙◌, List, [], ◌∷◌, Option, none, some, inl,
  inr, str_eq, if◌then◌else◌, Bool-cases, arith, eq_iff, eq_refl,
}
use pulse_narrator.Prelude.Results.{Result}
use pulse_narrator.System.{Os}
use pulse_narrator.Core.Event.{SessionId}
use pulse_narrator.Core.Source.{ProbeOutcome, TurnRead}
use pulse_narrator.Core.Wire.{
  WireEvent, WireEventKind, turn_complete, attention_hint, hook_degraded,
}
use pulse_narrator.Source.Error.{SourceError}
use pulse_narrator.Daemon.Error.{DaemonError}
use pulse_narrator.Daemon.Session.{
  DedupVerdict, new, duplicate, SessionState, default_state, SessionManager, get, is_last, receive,
  entry_or_default, record_dedup,
}
use pulse_narrator.Daemon.Session.Dedup.{
  repeats, is_last_iff, record_dedup-repeats, get-record_dedup, get-entry_or_default,
}
use pulse_narrator.Daemon.Tasks.{
  Task, receiving, recording, fetching, reading, storing, judging, failing, finished, step, step_at,
  Choice, go, accept, outside, Process, advance,
}
use pulse_narrator.Daemon.Session.Same.{core, IsSame, set_last_read_offset-IsSame, record_kind}
use pulse_narrator.Daemon.Tasks.Order.{
  AllKinds, AllKinds-append, record_event-record_kind, log, log_at, log_choice, trace,
}
use mathlib.Core.Option

module _ (sid : SessionId) (event_id : String) where
  -- The event, if it is of this session, has this id.
  abbrev pub HasId : WireEventKind → Type 0
  HasId (turn_complete s tid path) = s.as_str ≡ sid.as_str → tid.as_str ≡ event_id
  HasId (attention_hint s e raw_kind path) = s.as_str ≡ sid.as_str → e ≡ event_id
  HasId (hook_degraded reason s) = Unit

  abbrev pub AllHaveId : List WireEventKind → Type 0
  AllHaveId kinds = AllKinds HasId kinds

  -- One for a new event of the session, else nothing.
  abbrev pub count_new : DedupVerdict → ℕ
  count_new new = 1
  count_new duplicate = 0

  abbrev pub news_of : SessionId → String → Option String → SessionManager → ℕ
  news_of s e path mgr =
      if str_eq s.as_str sid.as_str then count_new (record_dedup s e path mgr).0 else 0

  abbrev pub news : WireEventKind → SessionManager → ℕ
  news (turn_complete s tid path) mgr = news_of s tid.as_str path mgr
  news (attention_hint s e raw_kind path) mgr = news_of s e path mgr
  news (hook_degraded reason s) mgr = 0

  -- One if the session's last event is this one.
  abbrev pub seen_in : Option SessionState → ℕ
  seen_in o = if is_last (Option.get_or o default_state).last_event_id event_id then 1 else 0

  abbrev pub seen : SessionManager → ℕ
  seen mgr = seen_in (get sid mgr)

  seen-core : (o : Option SessionState) → seen_in o ≡ seen_in (core o)
  seen-core none = refl
  seen-core (some state) = refl

  pub seen-IsSame : (mgr mgr' : SessionManager) → IsSame mgr mgr' → seen mgr ≡ seen mgr'
  seen-IsSame mgr mgr' same =
      seen-core (get sid mgr) ∙ ap seen_in (same sid) ∙ sym (seen-core (get sid mgr'))

  own-news :
      (path : Option String) (mgr : SessionManager)
      → count_new (record_dedup sid event_id path mgr).0 + seen mgr
        ≤ seen (record_dedup sid event_id path mgr).1
  unfolding receive
  own-news path mgr = elim (Bool-cases (repeats sid event_id mgr)) [
    | inl again ↦
        rw
          (
            record_dedup-repeats sid event_id path mgr,
            get-record_dedup sid sid event_id path mgr,
            eq_refl sid.as_str,
            again,
          )
          (rw again (omega arith))
    | inr fresh ↦
        rw
          (
            record_dedup-repeats sid event_id path mgr,
            get-record_dedup sid sid event_id path mgr,
            eq_refl sid.as_str,
            fresh,
          )
          (rw ((is_last_iff (some event_id) event_id).1 refl) (omega arith))
  ]

  news_of-seen :
      (s : SessionId) (e : String) (path : Option String) (mgr : SessionManager)
      → (s.as_str ≡ sid.as_str → e ≡ event_id)
      → news_of s e path mgr + seen mgr ≤ seen (record_dedup s e path mgr).1
  news_of-seen s e path mgr h = elim (Bool-cases (str_eq s.as_str sid.as_str)) [
    | inl own ↦
        let same_text : s.as_str ≡ sid.as_str = ground (arith, eq_iff s.as_str sid.as_str) in
        let same : s ≡ sid = ap (λ t. record { as_str = t }) same_text in
        rw own (rw (same, h same_text) (own-news path mgr))
    | inr foreign ↦ rw foreign (rw (get-record_dedup s sid e path mgr, foreign) (omega arith))
  ]

  touch-seen : (s : SessionId) (mgr : SessionManager) → seen mgr ≤ seen (entry_or_default s mgr).1
  touch-seen s mgr = elim (Bool-cases (str_eq s.as_str sid.as_str)) [
    | inl own ↦
        let same_text : s.as_str ≡ sid.as_str = ground (arith, eq_iff s.as_str sid.as_str) in
        let same : s ≡ sid = ap (λ t. record { as_str = t }) same_text in
        rw (get-entry_or_default s sid mgr, own) (rw same (omega arith))
    | inr foreign ↦ rw (get-entry_or_default s sid mgr, foreign) (omega arith)
  ]

  pub news-seen :
      (kind : WireEventKind) (mgr : SessionManager)
      → HasId kind
      → news kind mgr + seen mgr ≤ seen (record_kind kind mgr)
  news-seen (turn_complete s tid path) mgr h = news_of-seen s tid.as_str path mgr h
  news-seen (attention_hint s e raw_kind path) mgr h = news_of-seen s e path mgr h
  news-seen (hook_degraded reason none) mgr h = omega arith
  news-seen (hook_degraded reason (some s)) mgr h = omega (arith, touch-seen s mgr)

  -- The new events of the session among what is recorded next.
  abbrev pub news_all : List WireEventKind → SessionManager → ℕ
  news_all [] mgr = 0
  news_all (kind ∷ kinds) mgr = news kind mgr + news_all kinds (record_kind kind mgr)

module _ (os : Os) {Stream : Type 0} (take_frame : Stream → Result DaemonError WireEvent)
    (read : String → Option ℕ → os.World → Result SourceError (ProbeOutcome × TurnRead) × os.World)
    (sid : SessionId) (event_id : String) where
  open os use {World}

  pub step-seen :
      (task : Task Stream) (mgr : SessionManager) (w : World)
      → AllHaveId sid event_id (log task)
      → news_all sid event_id (log task) mgr + seen sid event_id mgr
        ≤ seen sid event_id (step os take_frame read task (mgr, w)).1.0
  unfolding step
  step-seen (receiving stream) mgr w h = omega arith
  step-seen (recording event) mgr w h =
      rw (record_event-record_kind os take_frame read event mgr w)
        (omega (arith, news-seen sid event_id event.kind mgr h.0))
  step-seen (fetching s path) mgr w h = omega arith
  step-seen (reading s path last) mgr w h = omega arith
  step-seen (storing s probe turn) mgr w h =
      omega
        (arith, seen-IsSame sid event_id _ mgr (set_last_read_offset-IsSame s turn.read_offset mgr))
  step-seen (judging probe turn) mgr w h = omega arith
  step-seen (failing e) mgr w h = omega arith
  step-seen (finished r) mgr w h = omega arith

  step_at-seen :
      (i : ℕ) (tasks : List (Task Stream)) (mgr : SessionManager) (w : World)
      → AllHaveId sid event_id (log_at i tasks)
      → news_all sid event_id (log_at i tasks) mgr + seen sid event_id mgr
        ≤ seen sid event_id (step_at os take_frame read i tasks (mgr, w)).1.0
  unfolding step_at
  step_at-seen i [] mgr w h = omega arith
  step_at-seen zero (task ∷ tasks) mgr w h = step-seen task mgr w h
  step_at-seen (suc i) (task ∷ tasks) mgr w h = step_at-seen i tasks mgr w h

  -- How often a handler finds an event of the session new, over a whole schedule.
  abbrev pub news_in_run : List (Choice os take_frame read) → Process os take_frame read → ℕ
  news_in_run [] p = 0
  news_in_run (choice ∷ choices) p =
      news_all sid event_id (log_choice os take_frame read choice p) p.shared.0
      + news_in_run choices (advance os take_frame read choice p)

  pub advance-seen :
      (choice : Choice os take_frame read) (p : Process os take_frame read)
      → AllHaveId sid event_id (log_choice os take_frame read choice p)
      → news_all sid event_id (log_choice os take_frame read choice p) p.shared.0
          + seen sid event_id p.shared.0
        ≤ seen sid event_id (advance os take_frame read choice p).shared.0
  unfolding advance
  advance-seen (go i) p h = step_at-seen i p.tasks p.shared.0 p.shared.1 h
  advance-seen (accept stream) p h = omega arith
  advance-seen (outside change) p h = omega arith

  run-seen :
      (choices : List (Choice os take_frame read)) (p : Process os take_frame read)
      → AllHaveId sid event_id (trace os take_frame read choices p)
      → news_in_run choices p + seen sid event_id p.shared.0 ≤ 1
  run-seen [] p h = ground arith
  run-seen (choice ∷ choices) p h =
      let (now, later) =
        AllKinds-append (HasId sid event_id) (log_choice os take_frame read choice p) _ h in
      omega (
        arith,
        advance-seen choice p now,
        run-seen choices (advance os take_frame read choice p) later,
      )

  -- While the events recorded for a session all have one id, at most one handler finds its event
  -- new, and so reads a transcript: however many deliveries are handled at once, and however their
  -- handlers interleave with each other, with other sessions' and with other programs.
  pub news_in_run-le :
      (choices : List (Choice os take_frame read)) (p : Process os take_frame read)
      → AllHaveId sid event_id (trace os take_frame read choices p)
      → news_in_run choices p ≤ 1
  news_in_run-le choices p h = omega (arith, run-seen choices p h)
