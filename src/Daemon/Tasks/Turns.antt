-- ===== src/Daemon/Tasks/Turns.antt =====
-- A turn of a session among events of others: what recording it leaves in the sessions.
use pulse_narrator.Prelude.{
  ℕ, ◌+◌, ◌≤◌, String, ◌≡◌, ◌≢◌, refl, ap, Option, none, some, true, false, str_eq, inl, inr,
  Bool-cases, arith, eq_iff, eq_refl,
}
use pulse_narrator.System.{Os}
use pulse_narrator.Core.Event.{SessionId, TurnId}
use pulse_narrator.Core.Wire.{
  WireEvent, WireEventKind, turn_complete, attention_hint, hook_degraded,
}
use pulse_narrator.Daemon.Session.{
  SessionManager, receive, entry_or_default, record_dedup, record_event,
}
use pulse_narrator.Daemon.Session.Dedup.{
  repeats, is_last_iff, record_dedup-repeats, get-record_dedup, get-entry_or_default,
}
use pulse_narrator.Daemon.Session.Same.{record_kind}
use pulse_narrator.Daemon.Tasks.Once.{HasId, seen}
use pulse_narrator.Daemon.Tasks.Reads.{readable, mine, due}

module _ (sid : SessionId) (event_id : String) where
  -- The event, if it is of this session, is this turn, with a path to read.
  abbrev pub IsTurn : WireEventKind → Type 0
  IsTurn (turn_complete s tid path) =
      s.as_str ≡ sid.as_str → (tid.as_str ≡ event_id) × (readable path ≡ 1)
  IsTurn (attention_hint s e raw_kind path) = s.as_str ≢ sid.as_str
  IsTurn (hook_degraded reason s) = Unit

  -- One for a turn of the session.
  abbrev pub wanted : WireEventKind → ℕ
  wanted (turn_complete s tid path) = mine sid s 1
  wanted (attention_hint s e raw_kind path) = 0
  wanted (hook_degraded reason s) = 0

  pub IsTurn-HasId : (kind : WireEventKind) → IsTurn kind → HasId sid event_id kind
  IsTurn-HasId (turn_complete s tid path) h = λ own. (h own).0
  IsTurn-HasId (attention_hint s e raw_kind path) h = λ own. absurd (h own)
  IsTurn-HasId (hook_degraded reason s) h = tt

  own_session : (s : SessionId) → str_eq s.as_str sid.as_str ≡ true → s ≡ sid
  own_session s own =
      let same_text : s.as_str ≡ sid.as_str = ground (arith, eq_iff s.as_str sid.as_str) in
      ap (λ t. record { as_str = t }) same_text

  -- Who is recorded has been seen.
  seen-record_dedup :
      (path : Option String) (mgr : SessionManager)
      → seen sid event_id (record_dedup sid event_id path mgr).1 ≡ 1
  unfolding receive
  seen-record_dedup path mgr =
      rw (get-record_dedup sid sid event_id path mgr, eq_refl sid.as_str)
        (elim (Bool-cases (repeats sid event_id mgr)) [
          | inl again ↦ rw again (rw again refl)
          | inr fresh ↦ rw fresh (rw ((is_last_iff (some event_id) event_id).1 refl) refl)
        ])

  foreign-seen :
      (s : SessionId) (e : String) (path : Option String) (mgr : SessionManager)
      → str_eq s.as_str sid.as_str ≡ false
      → seen sid event_id (record_dedup s e path mgr).1 ≡ seen sid event_id mgr
  foreign-seen s e path mgr foreign = rw (get-record_dedup s sid e path mgr, foreign) refl

  touch-seen :
      (s : SessionId) (mgr : SessionManager)
      → seen sid event_id (entry_or_default s mgr).1 ≡ seen sid event_id mgr
  touch-seen s mgr = elim (Bool-cases (str_eq s.as_str sid.as_str)) [
    | inl own ↦ rw (get-entry_or_default s sid mgr, own) (rw (own_session s own) refl)
    | inr foreign ↦ rw (get-entry_or_default s sid mgr, foreign) refl
  ]

  -- After its turn is recorded, the session has seen it.
  pub wanted-seen :
      (kind : WireEventKind) (mgr : SessionManager)
      → IsTurn kind
      → wanted kind ≤ seen sid event_id (record_kind kind mgr)
  wanted-seen (turn_complete s tid path) mgr h = elim (Bool-cases (str_eq s.as_str sid.as_str)) [
    | inr foreign ↦ rw foreign (omega arith)
    | inl own ↦
        let same : s ≡ sid = own_session s own in
        let named : tid.as_str ≡ event_id = (h (ap (λ t. t.as_str) same)).0 in
        rw own (rw (same, named) (omega (arith, seen-record_dedup path mgr)))
  ]
  wanted-seen (attention_hint s e raw_kind path) mgr h = omega arith
  wanted-seen (hook_degraded reason s) mgr h = omega arith

  -- Only a turn that is found new, and so is due to be read, makes the session see it.
  turn-due :
      (s : SessionId) (tid : TurnId) (path : Option String) (mgr : SessionManager)
      → readable path ≡ 1
      → s ≡ sid
      → tid.as_str ≡ event_id
      → seen sid event_id (record_dedup s tid.as_str path mgr).1
        ≤ due sid (record_dedup s tid.as_str path mgr).0 (turn_complete s tid path)
          + seen sid event_id mgr
  turn-due s tid path mgr r same named =
      rw (same, named)
        (elim (Bool-cases (repeats sid event_id mgr)) [
          | inl again ↦
              rw (record_dedup-repeats sid event_id path mgr, again)
                (omega (arith, seen-record_dedup path mgr))
          | inr fresh ↦
              rw (record_dedup-repeats sid event_id path mgr, fresh, eq_refl sid.as_str, r)
                (omega (arith, seen-record_dedup path mgr))
        ])

  module _ (os : Os) where
    open os use {World}

    pub due-seen :
        (event : WireEvent) (mgr : SessionManager) (w : World)
        → IsTurn event.kind
        → seen sid event_id (record_kind event.kind mgr)
          ≤ due sid (record_event os event mgr w).0 event.kind + seen sid event_id mgr
    unfolding record_event
    due-seen event mgr w h = by_kind event.kind h
      where
        by_kind :
            (kind : WireEventKind)
            → IsTurn kind
            → seen sid event_id (record_kind kind mgr)
              ≤ due sid
                  (record_event os
                    (record { schema_version = event.schema_version; kind = kind })
                    mgr
                    w).0
                  kind
                + seen sid event_id mgr
        by_kind (turn_complete s tid path) h = elim (Bool-cases (str_eq s.as_str sid.as_str)) [
          | inr foreign ↦ omega (arith, foreign-seen s tid.as_str path mgr foreign)
          | inl own ↦
              let same : s ≡ sid = own_session s own in
              let (named, r) = h (ap (λ t. t.as_str) same) in turn-due s tid path mgr r same named
        ]
        by_kind (attention_hint s e raw_kind path) h =
            elim (Bool-cases (str_eq s.as_str sid.as_str)) [
              | inr foreign ↦ omega (arith, foreign-seen s e path mgr foreign)
              | inl own ↦ absurd (h (ap (λ t. t.as_str) (own_session s own)))
            ]
        by_kind (hook_degraded reason none) h = omega arith
        by_kind (hook_degraded reason (some s)) h = omega (arith, touch-seen s mgr)
