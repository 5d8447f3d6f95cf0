-- ===== src/Daemon/Session/Sound.antt =====
-- An invariant of the sessions, and that every operation on them keeps it.
use pulse_narrator.Prelude.{
  ℕ, ◌≤◌, ◌<◌, String, ◌≡◌, refl, sym, Bool, true, false, Option, none, some, str_eq, eq_iff, arith,
  Bool-cases, Option-cases, inl, inr,
}
use pulse_narrator.Prelude.Words.{u64_max}
use pulse_narrator.Prelude.Maps.{NodupKeys, insert-NodupKeys}
use pulse_narrator.Core.Event.{SessionId}
use pulse_narrator.Daemon.Session.{
  SessionState, default_state, SessionManager, get, set_last_read_offset, is_last, receive,
  entry_or_default, record_dedup,
}
use pulse_narrator.Daemon.Session.Dedup.{
  get-set_last_read_offset, found, repeats, get-entry_or_default, get-record_dedup,
}
use pulse_narrator.Daemon.Session.History.{
  get_same, entry_or_default-NodupKeys, record_dedup-NodupKeys,
}
use mathlib.Core.Option

-- A session without an event has no receipts and no offset; one with an event has a receipt.
abbrev pub Matches : Option String → ℕ → Option ℕ → Type 0
Matches none receipts offset = (receipts ≡ 0) × (offset ≡ none)
Matches (some event_id) receipts offset = 0 < receipts

abbrev pub IsGood : Option SessionState → Type 0
IsGood none = Unit
IsGood (some state) =
    (state.receipt_seq ≤ u64_max)
    × Matches state.last_event_id state.receipt_seq state.last_read_offset

-- The sessions are each listed once, and are good.
abbrev pub IsSound : SessionManager → Type 0
IsSound mgr = NodupKeys mgr.sessions × ((sid : SessionId) → IsGood (get sid mgr))

-- Whether a session is tracked and has an event.
abbrev pub has_event : Option SessionState → Bool
has_event none = false
has_event (some state) = elim state.last_event_id [ none ↦ false | some event_id ↦ true ]

-- No session loses its event.
abbrev pub Keeps : SessionManager → SessionManager → Type 0
Keeps mgr mgr' =
    (sid : SessionId) → has_event (get sid mgr) ≡ true → has_event (get sid mgr') ≡ true

found-IsGood : (o : Option SessionState) → IsGood o → IsGood (some (Option.get_or o default_state))
found-IsGood none g = (omega arith, (refl, refl))
found-IsGood (some state) g = g

receive-IsGood :
    (event_id : String) (path : Option String) (state : SessionState)
    → IsGood (some (receive event_id path state))
unfolding receive
receive-IsGood event_id path state = (omega arith, omega arith)

is_last-has_event :
    (event_id : String) (state : SessionState)
    → is_last state.last_event_id event_id ≡ true
    → has_event (some state) ≡ true
unfolding is_last
is_last-has_event event_id state h = elim (Option-cases state.last_event_id) [
  | inl nothing ↦ absurd (cc (rw nothing at h))
  | inr (last, there) ↦ rw there refl
]

has_event-found :
    (o : Option SessionState)
    → has_event o ≡ true
    → has_event (some (Option.get_or o default_state)) ≡ true
has_event-found none h = absurd (cc h)
has_event-found (some state) h = h

-- What an operation makes of any session, by its case.
same_session : (a b : SessionId) → str_eq a.as_str b.as_str ≡ true → a.as_str ≡ b.as_str
same_session a b h = ground (arith, eq_iff a.as_str b.as_str)

pub record_dedup-IsSound :
    (sid : SessionId) (event_id : String) (path : Option String) (mgr : SessionManager)
    → IsSound mgr
    → IsSound (record_dedup sid event_id path mgr).1
record_dedup-IsSound sid event_id path mgr (once, good) = (
  record_dedup-NodupKeys sid event_id path mgr once,
  λ other.
      rw (get-record_dedup sid other event_id path mgr)
        (elim (Bool-cases (str_eq sid.as_str other.as_str)) [
          | inr foreign ↦ rw foreign (good other)
          | inl own ↦ rw own (elim (Bool-cases (repeats sid event_id mgr)) [
            | inl again ↦ rw again (found-IsGood (get sid mgr) (good sid))
            | inr fresh ↦ rw fresh (receive-IsGood event_id path (found sid mgr))
          ])
        ]),
)

pub entry_or_default-IsSound :
    (sid : SessionId) (mgr : SessionManager) → IsSound mgr → IsSound (entry_or_default sid mgr).1
entry_or_default-IsSound sid mgr (once, good) = (
  entry_or_default-NodupKeys sid mgr once,
  λ other.
      rw (get-entry_or_default sid other mgr) (elim (Bool-cases (str_eq sid.as_str other.as_str)) [
        | inr foreign ↦ rw foreign (good other)
        | inl own ↦ rw own (found-IsGood (get sid mgr) (good sid))
      ]),
)

has_event-IsGood :
    (state : SessionState) (offset : ℕ)
    → has_event (some state) ≡ true
    → IsGood (some state)
    → IsGood (some (record state { last_read_offset = some offset }))
has_event-IsGood state offset h (bound, matches) = (
  bound,
  elim (Option-cases state.last_event_id) [
    | inl nothing ↦ absurd (cc (rw nothing at h))
    | inr (last, there) ↦ rw there (rw there at matches)
  ],
)

pub set_last_read_offset-IsSound :
    (sid : SessionId) (offset : ℕ) (mgr : SessionManager)
    → has_event (get sid mgr) ≡ true
    → IsSound mgr
    → IsSound (set_last_read_offset sid offset mgr)
unfolding set_last_read_offset
set_last_read_offset-IsSound sid offset mgr h (once, good) = elim (Option-cases (get sid mgr)) [
  | inl unknown ↦ absurd (cc (rw unknown at h))
  | inr (state, known) ↦ (
    rw (set_last_read_offset, known)
        (insert-NodupKeys sid.as_str (record state { last_read_offset = some offset }) mgr.sessions
          once),
    λ other.
        rw (get-set_last_read_offset sid other offset mgr state known)
          (elim (Bool-cases (str_eq sid.as_str other.as_str)) [
            | inr foreign ↦ rw foreign (good other)
            | inl own ↦
                rw own (has_event-IsGood state offset (rw known at h) (rw known at (good sid)))
          ]),
  )
]

-- A session that was given an event has one.
pub record_dedup-has_event :
    (sid : SessionId) (event_id : String) (path : Option String) (mgr : SessionManager)
    (other : SessionId)
    → sid.as_str ≡ other.as_str
    → has_event (get other (record_dedup sid event_id path mgr).1) ≡ true
unfolding receive
record_dedup-has_event sid event_id path mgr other same =
    let own : str_eq sid.as_str other.as_str ≡ true =
      ground (arith, eq_iff sid.as_str other.as_str) in
    rw (get-record_dedup sid other event_id path mgr, own)
      (elim (Bool-cases (repeats sid event_id mgr)) [
        | inl again ↦ rw again (is_last-has_event event_id (found sid mgr) again)
        | inr fresh ↦ rw fresh refl
      ])

pub record_dedup-Keeps :
    (sid : SessionId) (event_id : String) (path : Option String) (mgr : SessionManager)
    → Keeps mgr (record_dedup sid event_id path mgr).1
record_dedup-Keeps sid event_id path mgr other h =
    elim (Bool-cases (str_eq sid.as_str other.as_str)) [
      | inl own ↦ record_dedup-has_event sid event_id path mgr other (same_session sid other own)
      | inr foreign ↦ rw (get-record_dedup sid other event_id path mgr, foreign) h
    ]

pub entry_or_default-Keeps :
    (sid : SessionId) (mgr : SessionManager) → Keeps mgr (entry_or_default sid mgr).1
entry_or_default-Keeps sid mgr other h =
    rw (get-entry_or_default sid other mgr) (elim (Bool-cases (str_eq sid.as_str other.as_str)) [
      | inl own ↦ rw own (
          has_event-found (get sid mgr)
            (rw (get_same sid other mgr (same_session sid other own)) h))
      | inr foreign ↦ rw foreign h
    ])

pub set_last_read_offset-Keeps :
    (sid : SessionId) (offset : ℕ) (mgr : SessionManager)
    → Keeps mgr (set_last_read_offset sid offset mgr)
unfolding set_last_read_offset
set_last_read_offset-Keeps sid offset mgr other h = elim (Option-cases (get sid mgr)) [
  | inl unknown ↦ rw (set_last_read_offset, unknown) h
  | inr (state, known) ↦
      rw (get-set_last_read_offset sid other offset mgr state known)
        (elim (Bool-cases (str_eq sid.as_str other.as_str)) [
          | inl own ↦
              rw own (rw (sym (get_same sid other mgr (same_session sid other own)), known) at h)
          | inr foreign ↦ rw foreign h
        ])
]
