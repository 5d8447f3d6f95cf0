-- ===== src/Daemon/Session/Dedup.antt =====
-- What one delivery does to the sessions: the verdict, the session's new state, all the others.
use pulse_narrator.Prelude.{
  ℕ, String, ◌≡◌, ◌↔◌, Bool, true, Option, none, some, str_eq, eq_iff, if◌then◌else◌, arith, inl,
  inr, Option-cases,
}
use pulse_narrator.Prelude.Maps.{lookup-insert}
use pulse_narrator.Core.Event.{SessionId}
use pulse_narrator.Daemon.Session.{
  new, duplicate, SessionState, default_state, SessionManager, get, set_last_read_offset, is_last,
  receive, entry_or_default, record_dedup,
}
use mathlib.Core.Option

-- The state that a delivery finds: the session's, or a fresh one.
abbrev pub found : SessionId → SessionManager → SessionState
found session_id mgr = Option.get_or (get session_id mgr) default_state

-- Whether a delivery repeats the session's last event, by the specification.
abbrev pub repeats : SessionId → String → SessionManager → Bool
repeats session_id event_id mgr = is_last (found session_id mgr).last_event_id event_id

entry_or_default_state :
    (sid : SessionId) (mgr : SessionManager) → (entry_or_default sid mgr).0 ≡ found sid mgr
unfolding entry_or_default get
entry_or_default_state sid mgr = ground arith

pub get-entry_or_default :
    (sid other : SessionId) (mgr : SessionManager)
    → get other (entry_or_default sid mgr).1
      ≡ (if str_eq sid.as_str other.as_str then some (found sid mgr) else get other mgr)
unfolding entry_or_default get
get-entry_or_default sid other mgr = ground (
  arith,
  eq_iff sid.as_str other.as_str,
  lookup-insert sid.as_str other.as_str default_state mgr.sessions,
)

pub get-set_last_read_offset :
    (sid other : SessionId) (offset : ℕ) (mgr : SessionManager) (state : SessionState)
    → get sid mgr ≡ some state
    → get other (set_last_read_offset sid offset mgr) ≡ (
        if str_eq sid.as_str other.as_str
        then some (record state { last_read_offset = some offset })
        else get other mgr)
unfolding get set_last_read_offset
get-set_last_read_offset sid other offset mgr state known = ground (
  arith,
  known,
  lookup-insert sid.as_str other.as_str (record state { last_read_offset = some offset })
      mgr.sessions,
)

pub is_last_iff :
    (o : Option String) (event_id : String) → (is_last o event_id ≡ true) ↔ (o ≡ some event_id)
unfolding is_last
is_last_iff none event_id = (λ h. cc, λ h. cc)
is_last_iff (some last) event_id =
    (λ h. ground (arith, eq_iff last event_id), λ h. ground (arith, eq_iff last event_id))

pub record_dedup-repeats :
    (sid : SessionId) (event_id : String) (path : Option String) (mgr : SessionManager)
    → (record_dedup sid event_id path mgr).0 ≡ (if repeats sid event_id mgr then duplicate else new)
unfolding record_dedup
record_dedup-repeats sid event_id path mgr = ground (arith, entry_or_default_state sid mgr)

-- A session repeats an event if it is tracked and that was its last event.
repeats_iff :
    (sid : SessionId) (event_id : String) (mgr : SessionManager)
    → (repeats sid event_id mgr ≡ true) ↔ (
        (state : SessionState) × (get sid mgr ≡ some state) × (state.last_event_id ≡ some event_id))
repeats_iff sid event_id mgr = (
  λ h. elim (Option-cases (get sid mgr)) [
    | inl fresh ↦ absurd (cc ((is_last_iff none event_id).0 (rw fresh at h)))
    | inr (state, known) ↦
        (state, known, (is_last_iff state.last_event_id event_id).0 (rw known at h))
  ],
  λ (state, known, last). rw known ((is_last_iff state.last_event_id event_id).1 last),
)

-- The verdict is `duplicate` exactly if the session is tracked and its last event has this id.
pub record_dedup_verdict :
    (sid : SessionId) (event_id : String) (path : Option String) (mgr : SessionManager)
    → ((record_dedup sid event_id path mgr).0 ≡ duplicate) ↔ (
        (state : SessionState) × (get sid mgr ≡ some state) × (state.last_event_id ≡ some event_id))
record_dedup_verdict sid event_id path mgr = (
  λ h.
      (repeats_iff sid event_id mgr).0 (ground (arith, record_dedup-repeats sid event_id path mgr)),
  λ h.
      ground
        (arith, record_dedup-repeats sid event_id path mgr, (repeats_iff sid event_id mgr).1 h),
)

-- The map after a delivery, read at any session: the delivery's own session has received the event,
-- or is as it was found if the event is a repeat; every other session is untouched.
pub get-record_dedup :
    (sid other : SessionId) (event_id : String) (path : Option String) (mgr : SessionManager)
    → get other (record_dedup sid event_id path mgr).1 ≡ (
        if str_eq sid.as_str other.as_str
        then some (
            if repeats sid event_id mgr
            then found sid mgr
            else receive event_id path (found sid mgr))
        else get other mgr)
unfolding record_dedup get
get-record_dedup sid other event_id path mgr = ground (
  arith,
  entry_or_default_state sid mgr,
  get-entry_or_default sid other mgr,
  lookup-insert sid.as_str other.as_str (receive event_id path (found sid mgr))
      (entry_or_default sid mgr).1.sessions,
)
