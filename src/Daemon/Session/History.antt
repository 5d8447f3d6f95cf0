-- ===== src/Daemon/Session/History.antt =====
-- What a sequence of deliveries does to the sessions: each session sees its own deliveries only.
use pulse_narrator.Prelude.{
  String, ◌≡◌, refl, ap, Option, some, List, [], ◌∷◌, str_eq, eq_iff, if◌then◌else◌, arith,
  Bool-cases, inl, inr,
}
use pulse_narrator.Prelude.Maps.{NodupKeys, insert-NodupKeys}
use pulse_narrator.Core.Event.{SessionId}
use pulse_narrator.Daemon.Session.{
  SessionState, default_state, SessionManager, get, is_last, receive, entry_or_default,
  record_dedup,
}
use pulse_narrator.Daemon.Session.Dedup.{get-record_dedup}
use mathlib.Core.Option

pub record Delivery : Type 0 where
  pub session_id : SessionId
  pub event_id : String
  pub transcript_path : Option String

-- The sessions after the deliveries, in order.
abbrev pub deliver_all : List Delivery → SessionManager → SessionManager
deliver_all [] mgr = mgr
deliver_all (d ∷ ds) mgr =
    deliver_all ds (record_dedup d.session_id d.event_id d.transcript_path mgr).1

-- A session by itself: a delivery of its last event leaves it, any other is received.
abbrev pub alone_step : Delivery → SessionState → SessionState
alone_step d state =
    if is_last state.last_event_id d.event_id
    then state
    else receive d.event_id d.transcript_path state

-- A session by itself, given the deliveries of all.
abbrev pub alone : String → List Delivery → Option SessionState → Option SessionState
alone sid [] o = o
alone sid (d ∷ ds) o =
    if str_eq d.session_id.as_str sid
    then alone sid ds (some (alone_step d (Option.get_or o default_state)))
    else alone sid ds o

pub get_same :
    (a b : SessionId) (mgr : SessionManager) → a.as_str ≡ b.as_str → get a mgr ≡ get b mgr
unfolding get
get_same a b mgr same = rw same

-- Every session's state after any deliveries is that of the session by itself: deliveries of other
-- sessions, in whatever order they come between, change nothing of it.
pub get-deliver_all :
    (sid : SessionId) (ds : List Delivery) (mgr : SessionManager)
    → get sid (deliver_all ds mgr) ≡ alone sid.as_str ds (get sid mgr)
get-deliver_all sid [] mgr = refl
get-deliver_all sid (d ∷ ds) mgr = elim (Bool-cases (str_eq d.session_id.as_str sid.as_str)) [
  | inl own ↦
      rw
        (
          get-deliver_all sid ds _,
          get-record_dedup d.session_id sid d.event_id d.transcript_path mgr,
          own,
        )
        (ap (λ o. alone sid.as_str ds (some (alone_step d (Option.get_or o default_state))))
          (get_same d.session_id sid mgr (ground (arith, eq_iff d.session_id.as_str sid.as_str))))
  | inr foreign ↦
      rw
        (
          get-deliver_all sid ds _,
          get-record_dedup d.session_id sid d.event_id d.transcript_path mgr,
          foreign,
        )
        refl
]

-- No session is listed twice, after any deliveries.
pub entry_or_default-NodupKeys :
    (sid : SessionId) (mgr : SessionManager)
    → NodupKeys mgr.sessions
    → NodupKeys (entry_or_default sid mgr).1.sessions
unfolding entry_or_default
entry_or_default-NodupKeys sid mgr u =
    ground (arith, insert-NodupKeys sid.as_str default_state mgr.sessions u)

pub record_dedup-NodupKeys :
    (sid : SessionId) (event_id : String) (path : Option String) (mgr : SessionManager)
    → NodupKeys mgr.sessions
    → NodupKeys (record_dedup sid event_id path mgr).1.sessions
unfolding record_dedup
record_dedup-NodupKeys sid event_id path mgr u =
    let u' = entry_or_default-NodupKeys sid mgr u in
    ground (
      arith,
      insert-NodupKeys sid.as_str (receive event_id path (entry_or_default sid mgr).0)
          (entry_or_default sid mgr).1.sessions u',
    )

pub deliver_all-NodupKeys :
    (ds : List Delivery) (mgr : SessionManager)
    → NodupKeys mgr.sessions
    → NodupKeys (deliver_all ds mgr).sessions
deliver_all-NodupKeys [] mgr u = u
deliver_all-NodupKeys (d ∷ ds) mgr u =
    deliver_all-NodupKeys ds _
      (record_dedup-NodupKeys d.session_id d.event_id d.transcript_path mgr u)
