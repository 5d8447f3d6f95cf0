-- ===== src/Daemon/Connection/Offset.antt =====
-- The read offset of a session, after each of the session manager's operations.
use pulse_narrator.Prelude.{
  ℕ, String, ◌≡◌, refl, ap, ◌∙◌, sym, Option, none, some, true, str_eq, eq_iff, arith, inl, inr,
  Bool-cases, Option-cases,
}
use pulse_narrator.Core.Event.{SessionId}
use pulse_narrator.Core.Wire.{WireEventKind, turn_complete, attention_hint, hook_degraded}
use pulse_narrator.Daemon.Session.{
  SessionState, SessionManager, get, set_last_read_offset, receive, entry_or_default, record_dedup,
}
use pulse_narrator.Daemon.Session.Dedup.{
  found, repeats, get-record_dedup, get-entry_or_default, get-set_last_read_offset,
}
use pulse_narrator.Daemon.Session.Same.{record_kind}
use pulse_narrator.Daemon.Connection.{last_read_offset_of}

get-same :
    (sid other : SessionId) (mgr : SessionManager)
    → str_eq sid.as_str other.as_str ≡ true
    → get sid mgr ≡ get other mgr
unfolding get
get-same sid other mgr own =
    let same : sid.as_str ≡ other.as_str = ground (arith, eq_iff sid.as_str other.as_str) in
    rw same refl

-- The offset of an untracked session is that of a fresh one.
abbrev offset_in : Option SessionState → Option ℕ
offset_in none = none
offset_in (some state) = state.last_read_offset

last_read_offset_of-get :
    (sid : SessionId) (mgr : SessionManager) → last_read_offset_of sid mgr ≡ offset_in (get sid mgr)
unfolding last_read_offset_of
last_read_offset_of-get sid mgr = elim (Option-cases (get sid mgr)) [
  | inl fresh ↦ rw (last_read_offset_of, fresh) refl
  | inr (state, known) ↦ rw (last_read_offset_of, known) refl
]

found_offset :
    (sid : SessionId) (mgr : SessionManager)
    → (found sid mgr).last_read_offset ≡ offset_in (get sid mgr)
found_offset sid mgr = elim (Option-cases (get sid mgr)) [
  | inl fresh ↦ rw (found, fresh) refl
  | inr (state, known) ↦ rw (found, known) refl
]

offset_in-record_dedup :
    (sid other : SessionId) (event_id : String) (path : Option String) (mgr : SessionManager)
    → offset_in (get other (record_dedup sid event_id path mgr).1) ≡ offset_in (get other mgr)
unfolding receive
offset_in-record_dedup sid other event_id path mgr =
    rw (get-record_dedup sid other event_id path mgr)
      (elim (Bool-cases (str_eq sid.as_str other.as_str)) [
        | inr foreign ↦ rw foreign refl
        | inl own ↦
            let same = ap offset_in (get-same sid other mgr own) in
            elim (Bool-cases (repeats sid event_id mgr)) [
              | inl again ↦ rw (own, again) (found_offset sid mgr ∙ same)
              | inr fresh ↦ rw (own, fresh) (found_offset sid mgr ∙ same)
            ]
      ])

offset_in-entry_or_default :
    (sid other : SessionId) (mgr : SessionManager)
    → offset_in (get other (entry_or_default sid mgr).1) ≡ offset_in (get other mgr)
offset_in-entry_or_default sid other mgr =
    rw (get-entry_or_default sid other mgr) (elim (Bool-cases (str_eq sid.as_str other.as_str)) [
      | inr foreign ↦ rw foreign refl
      | inl own ↦ rw own (found_offset sid mgr ∙ ap offset_in (get-same sid other mgr own))
    ])

offset_in-record_kind :
    (kind : WireEventKind) (other : SessionId) (mgr : SessionManager)
    → offset_in (get other (record_kind kind mgr)) ≡ offset_in (get other mgr)
offset_in-record_kind (turn_complete s tid path) other mgr =
    offset_in-record_dedup s other tid.as_str path mgr
offset_in-record_kind (attention_hint s event_id raw_kind path) other mgr =
    offset_in-record_dedup s other event_id path mgr
offset_in-record_kind (hook_degraded reason none) other mgr = refl
offset_in-record_kind (hook_degraded reason (some s)) other mgr =
    offset_in-entry_or_default s other mgr

-- Recording leaves the offset of every session as it is.
pub last_read_offset_of-record_kind :
    (kind : WireEventKind) (other : SessionId) (mgr : SessionManager)
    → last_read_offset_of other (record_kind kind mgr) ≡ last_read_offset_of other mgr
last_read_offset_of-record_kind kind other mgr =
    last_read_offset_of-get other (record_kind kind mgr)
    ∙ offset_in-record_kind kind other mgr
    ∙ sym (last_read_offset_of-get other mgr)

-- Storing an offset changes that of its session alone.
pub last_read_offset_of-set :
    (P : Option ℕ → Type 0)
    → (sid other : SessionId) (offset : ℕ) (mgr : SessionManager)
    → (str_eq sid.as_str other.as_str ≡ true → P (some offset))
    → P (last_read_offset_of other mgr)
    → P (last_read_offset_of other (set_last_read_offset sid offset mgr))
unfolding set_last_read_offset
last_read_offset_of-set P sid other offset mgr own_case rest = elim (Option-cases (get sid mgr)) [
  | inl fresh ↦ rw (set_last_read_offset, fresh) rest
  | inr (state, known) ↦
      rw
        (
          last_read_offset_of-get other (set_last_read_offset sid offset mgr),
          get-set_last_read_offset sid other offset mgr state known,
        )
        (elim (Bool-cases (str_eq sid.as_str other.as_str)) [
          | inl own ↦ rw own (own_case own)
          | inr foreign ↦ rw foreign (rw (last_read_offset_of-get other mgr) at rest)
        ])
]
