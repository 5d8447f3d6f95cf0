-- ===== src/Daemon/Session/Same.antt =====
-- The sessions but for their read offsets, and what events do to them.
use pulse_narrator.Prelude.{
  ℕ, String, ◌≡◌, refl, sym, ap, ◌∙◌, List, [], ◌∷◌, ◌++◌, Option, none, some, inl, inr, str_eq,
  if◌then◌else◌, true, Bool-cases, Option-cases, arith, eq_iff,
}
use pulse_narrator.Core.Event.{SessionId}
use pulse_narrator.Core.Wire.{WireEventKind, turn_complete, attention_hint, hook_degraded}
use pulse_narrator.Daemon.Session.{
  SessionState, default_state, SessionManager, get, set_last_read_offset, is_last, receive,
  entry_or_default, record_dedup,
}
use pulse_narrator.Daemon.Session.Dedup.{
  get-set_last_read_offset, get-record_dedup, get-entry_or_default,
}
use pulse_narrator.Daemon.Session.History.{get_same}
use mathlib.Core.Option

-- A session but for its read offset, which the handlers store later.
abbrev pub core : Option SessionState → Option SessionState
core none = none
core (some state) = some (record state { last_read_offset = none })

-- The same sessions, but for the read offsets.
abbrev pub IsSame : SessionManager → SessionManager → Type 0
IsSame mgr mgr' = (sid : SessionId) → core (get sid mgr) ≡ core (get sid mgr')

-- The state of a session after a delivery.
abbrev next_state : String → Option String → Option SessionState → SessionState
next_state event_id path o =
    let state = Option.get_or o default_state in
    if is_last state.last_event_id event_id then state else receive event_id path state

core-next_state :
    (event_id : String) (path : Option String) (o : Option SessionState)
    → core (some (next_state event_id path o)) ≡ core (some (next_state event_id path (core o)))
unfolding receive
core-next_state event_id path none = refl
core-next_state event_id path (some state) =
    elim (Bool-cases (is_last state.last_event_id event_id)) [
      | inl again ↦ rw again refl
      | inr fresh ↦ rw fresh refl
    ]

core-get_or :
    (o : Option SessionState)
    → core (some (Option.get_or o default_state))
      ≡ core (some (Option.get_or (core o) default_state))
core-get_or none = refl
core-get_or (some state) = refl

-- The same sessions, read under the id of another, equal one.
core_same :
    (sid other : SessionId) (mgr mgr' : SessionManager)
    → str_eq sid.as_str other.as_str ≡ true
    → core (get other mgr) ≡ core (get other mgr')
    → core (get sid mgr) ≡ core (get sid mgr')
core_same sid other mgr mgr' own same =
    let texts : sid.as_str ≡ other.as_str = ground (arith, eq_iff sid.as_str other.as_str) in
    rw (get_same sid other mgr texts, get_same sid other mgr' texts) same

-- What a session becomes depends on what it was.
record_dedup-core :
    (sid : SessionId) (event_id : String) (path : Option String) (other : SessionId)
    (mgr mgr' : SessionManager)
    → core (get other mgr) ≡ core (get other mgr')
    → core (get other (record_dedup sid event_id path mgr).1)
      ≡ core (get other (record_dedup sid event_id path mgr').1)
record_dedup-core sid event_id path other mgr mgr' same =
    rw (get-record_dedup sid other event_id path mgr, get-record_dedup sid other event_id path mgr')
      (elim (Bool-cases (str_eq sid.as_str other.as_str)) [
        | inl own ↦ rw own (
            core-next_state event_id path (get sid mgr)
            ∙ ap (λ o. core (some (next_state event_id path o)))
                (core_same sid other mgr mgr' own same)
            ∙ sym (core-next_state event_id path (get sid mgr')))
        | inr foreign ↦ rw foreign same
      ])

entry_or_default-core :
    (sid other : SessionId) (mgr mgr' : SessionManager)
    → core (get other mgr) ≡ core (get other mgr')
    → core (get other (entry_or_default sid mgr).1) ≡ core (get other (entry_or_default sid mgr').1)
entry_or_default-core sid other mgr mgr' same =
    rw (get-entry_or_default sid other mgr, get-entry_or_default sid other mgr')
      (elim (Bool-cases (str_eq sid.as_str other.as_str)) [
        | inl own ↦ rw own (
            core-get_or (get sid mgr)
            ∙ ap (λ o. core (some (Option.get_or o default_state)))
                (core_same sid other mgr mgr' own same)
            ∙ sym (core-get_or (get sid mgr')))
        | inr foreign ↦ rw foreign same
      ])

pub set_last_read_offset-IsSame :
    (sid : SessionId) (offset : ℕ) (mgr : SessionManager)
    → IsSame (set_last_read_offset sid offset mgr) mgr
unfolding set_last_read_offset
set_last_read_offset-IsSame sid offset mgr other = elim (Option-cases (get sid mgr)) [
  | inl unknown ↦ rw (set_last_read_offset, unknown) refl
  | inr (state, known) ↦
      rw (get-set_last_read_offset sid other offset mgr state known)
        (elim (Bool-cases (str_eq sid.as_str other.as_str)) [
          | inl own ↦ rw own (
              ap core (
                sym known
                ∙ get_same sid other mgr (ground (arith, eq_iff sid.as_str other.as_str))))
          | inr foreign ↦ rw foreign refl
        ])
]

-- What an event does to the sessions, whatever the world.
abbrev pub record_kind : WireEventKind → SessionManager → SessionManager
record_kind (turn_complete sid tid path) mgr = (record_dedup sid tid.as_str path mgr).1
record_kind (attention_hint sid event_id raw_kind path) mgr = (record_dedup sid event_id path mgr).1
record_kind (hook_degraded reason none) mgr = mgr
record_kind (hook_degraded reason (some sid)) mgr = (entry_or_default sid mgr).1

pub record_kind-core :
    (kind : WireEventKind) (sid : SessionId) (mgr mgr' : SessionManager)
    → core (get sid mgr) ≡ core (get sid mgr')
    → core (get sid (record_kind kind mgr)) ≡ core (get sid (record_kind kind mgr'))
record_kind-core (turn_complete s tid path) sid mgr mgr' same =
    record_dedup-core s tid.as_str path sid mgr mgr' same
record_kind-core (attention_hint s event_id raw_kind path) sid mgr mgr' same =
    record_dedup-core s event_id path sid mgr mgr' same
record_kind-core (hook_degraded reason none) sid mgr mgr' same = same
record_kind-core (hook_degraded reason (some s)) sid mgr mgr' same =
    entry_or_default-core s sid mgr mgr' same

pub record_kind-IsSame :
    (kind : WireEventKind) (mgr mgr' : SessionManager)
    → IsSame mgr mgr'
    → IsSame (record_kind kind mgr) (record_kind kind mgr')
record_kind-IsSame kind mgr mgr' same sid = record_kind-core kind sid mgr mgr' (same sid)

-- One event after another.
abbrev pub record_all : List WireEventKind → SessionManager → SessionManager
record_all [] mgr = mgr
record_all (kind ∷ kinds) mgr = record_all kinds (record_kind kind mgr)

pub record_all-append :
    (xs ys : List WireEventKind) (mgr : SessionManager)
    → record_all (xs ++ ys) mgr ≡ record_all ys (record_all xs mgr)
record_all-append [] ys mgr = refl
record_all-append (x ∷ xs) ys mgr = record_all-append xs ys (record_kind x mgr)
