-- ===== src/Daemon/Session/Retries.antt =====
-- Retried deliveries: what is suppressed, and what is not.
use pulse_narrator.Prelude.{
  String, ◌≡◌, ◌≢◌, ◌⊎◌, refl, Option, some, eq_refl, arith, inl, inr, Bool-cases,
}
use pulse_narrator.Core.Event.{SessionId}
use pulse_narrator.Daemon.Session.{
  DedupVerdict, new, duplicate, SessionState, SessionManager, get, receive, entry_or_default,
  record_dedup,
}
use pulse_narrator.Daemon.Session.Dedup.{
  found, repeats, is_last_iff, get-record_dedup, record_dedup_verdict,
}

entry_or_default_known :
    (sid : SessionId) (mgr : SessionManager) (state : SessionState)
    → get sid mgr ≡ some state
    → entry_or_default sid mgr ≡ (state, mgr)
unfolding entry_or_default
entry_or_default_known sid mgr state known = rw (entry_or_default, known) refl

-- A repeat changes nothing at all.
pub record_dedup_repeat :
    (sid : SessionId) (event_id : String) (path : Option String) (mgr : SessionManager)
    (state : SessionState)
    → get sid mgr ≡ some state
    → state.last_event_id ≡ some event_id
    → record_dedup sid event_id path mgr ≡ (duplicate, mgr)
unfolding record_dedup
record_dedup_repeat sid event_id path mgr state known last =
    rw (entry_or_default_known sid mgr state known)
      (rw ((is_last_iff state.last_event_id event_id).1 last))

-- After a delivery the session is tracked, and its last event is the delivered one.
pub record_dedup_last :
    (sid : SessionId) (event_id : String) (path : Option String) (mgr : SessionManager)
    → (state : SessionState) × (get sid (record_dedup sid event_id path mgr).1 ≡ some state)
      × (state.last_event_id ≡ some event_id)
unfolding receive
record_dedup_last sid event_id path mgr = elim (Bool-cases (repeats sid event_id mgr)) [
  | inl again ↦ (
    found sid mgr,
    ground (arith, get-record_dedup sid sid event_id path mgr, eq_refl sid.as_str),
    (is_last_iff (found sid mgr).last_event_id event_id).0 again,
  )
  | inr fresh ↦ (
    receive event_id path (found sid mgr),
    ground (arith, get-record_dedup sid sid event_id path mgr, eq_refl sid.as_str),
    refl,
  )
]

-- A delivery sent again at once is a duplicate and changes nothing.
pub record_dedup_twice :
    (sid : SessionId) (event_id : String) (first second : Option String) (mgr : SessionManager)
    → record_dedup sid event_id second (record_dedup sid event_id first mgr).1
      ≡ (duplicate, (record_dedup sid event_id first mgr).1)
record_dedup_twice sid event_id first second mgr =
    let (state, known, last) = record_dedup_last sid event_id first mgr in
    record_dedup_repeat sid event_id second _ state known last

-- Another event of the session is new.
pub record_dedup_other :
    (sid : SessionId) (event_id next : String) (first second : Option String) (mgr : SessionManager)
    → event_id ≢ next
    → (record_dedup sid next second (record_dedup sid event_id first mgr).1).0 ≡ new
record_dedup_other sid event_id next first second mgr differ =
    let mgr' = (record_dedup sid event_id first mgr).1 in
    let (state, known, last) = record_dedup_last sid event_id first mgr in
    elim (verdict-cases (record_dedup sid next second mgr').0) [
      | inl fresh ↦ fresh
      | inr again ↦
          let (state', known', last') = (record_dedup_verdict sid next second mgr').0 again in
          absurd (differ (cc (known, known', last, last')))
    ]
  where
    verdict-cases : (v : DedupVerdict) → (v ≡ new) ⊎ (v ≡ duplicate)
    verdict-cases new = inl refl
    verdict-cases duplicate = inr refl

-- An event that comes again after one with another id in its session is new again: only the last
-- is known.
pub record_dedup_later :
    (sid : SessionId) (event_id between : String) (first second third : Option String)
    (mgr : SessionManager)
    → between ≢ event_id
    → let mgr' = (record_dedup sid event_id first mgr).1 in
      (record_dedup sid event_id third (record_dedup sid between second mgr').1).0 ≡ new
record_dedup_later sid event_id between first second third mgr differ =
    record_dedup_other sid between event_id second third (record_dedup sid event_id first mgr).1
      differ
