-- ===== src/Daemon/Connection/Loud.antt =====
-- What a new turn does: the offset it stores and the marker it writes; and what a repeat does not.
use pulse_narrator.Prelude.{
  ℕ, String, ◌<>◌, ◌≡◌, ◌≢◌, refl, List, Option, none, some, false, str_eq, eq_iff, if◌then◌else◌,
  arith, inl, inr,
}
use pulse_narrator.Prelude.Results.{Result, ok, err, Result-cases}
use pulse_narrator.System.{Os, WritesFiles}
use pulse_narrator.Core.Event.{SessionId, TurnId}
use pulse_narrator.Core.Source.{
  ProbeOutcome, drift, ReadVerdict, settled, settled_at_bound, truncated, TurnRead,
}
use pulse_narrator.Core.Wire.{WireEvent, turn_complete}
use pulse_narrator.Source.Error as SourceError
use pulse_narrator.Source.Error.{SourceError}
use pulse_narrator.Source.Probe.{Json}
use pulse_narrator.Source.Reader.{read_complete}
use pulse_narrator.Daemon.Degraded.{marker_path, mark_degraded}
use pulse_narrator.Daemon.Degraded.Marker.{mark_degraded_text}
use pulse_narrator.Daemon.Session.Dedup.{get-set_last_read_offset}
use pulse_narrator.Daemon.Session.{
  new, SessionState, SessionManager, get, record_dedup, record_event,
}
use pulse_narrator.Daemon.Session.Retries.{record_dedup_repeat}
use pulse_narrator.Daemon.Connection.{
  handle_read_outcome, last_read_offset_of, read_turn, on_turn, on_new, on_verdict, on_event,
}

-- Why a turn is degraded, if it is, by what the reader answers.
abbrev pub complaint_of : ProbeOutcome → ReadVerdict → Option String
complaint_of (drift detail) v = some detail
complaint_of ProbeOutcome.ok truncated = some "truncated transcript (size regression)"
complaint_of ProbeOutcome.ok settled = none
complaint_of ProbeOutcome.ok settled_at_bound = none

abbrev pub complaint : Result SourceError (ProbeOutcome × TurnRead) → Option String
complaint (ok (p, r)) = complaint_of p r.verdict
complaint (err e) = some ("read failed: " <> SourceError.display e)

module _ (os : Os) where
  open os use {World, text_at}

  -- The world in which a complaint has been made.
  abbrev pub complain : Option String → World → World
  complain none w = w
  complain (some reason) w = (mark_degraded os reason w).1

  pub handle_read_outcome-complain :
      (p : ProbeOutcome) (r : TurnRead) (w : World)
      → handle_read_outcome os p r w ≡ complain (complaint_of p r.verdict) w
  unfolding handle_read_outcome
  handle_read_outcome-complain (drift detail) r w = refl
  handle_read_outcome-complain ProbeOutcome.ok r w = ground arith

  pub record_event_turn :
      (event : WireEvent) (mgr : SessionManager) (w : World) (sid : SessionId) (tid : TurnId)
      (path : Option String)
      → event.kind ≡ turn_complete sid tid path
      → record_event os event mgr w
        ≡ ((record_dedup sid tid.as_str path mgr).0, (record_dedup sid tid.as_str path mgr).1, w)
  unfolding record_event
  record_event_turn event mgr w sid tid path kind = rw (record_event, kind) refl

  module _ (json : Json) (hash : List ℕ → ℕ) where
    -- The world after a turn's reading is the one in which exactly the complaint was made.
    read_turn_world :
        (sid : SessionId) (path : String) (mgr : SessionManager) (w : World)
        → let (result, w') = read_complete os json hash path (last_read_offset_of sid mgr) w in
          (read_turn os json hash sid path mgr w).1 ≡ complain (complaint result) w'
    unfolding read_turn
    read_turn_world sid path mgr w =
        elim (Result-cases (read_complete os json hash path (last_read_offset_of sid mgr) w).0) [
          | inl ((p, r), e) ↦ rw (read_turn, e) (handle_read_outcome-complain p r _)
          | inr (x, e) ↦ rw (read_turn, e) refl
        ]

    -- The offset that a turn's reading leaves: the reader's, in this session alone.
    read_turn_offset :
        (sid : SessionId) (path : String) (mgr : SessionManager) (w : World) (state : SessionState)
        → get sid mgr ≡ some state
        → (other : SessionId) (p : ProbeOutcome) (r : TurnRead)
        → (read_complete os json hash path (last_read_offset_of sid mgr) w).0 ≡ ok (p, r)
        → get other (read_turn os json hash sid path mgr w).0 ≡ (
            if str_eq sid.as_str other.as_str
            then some (record state { last_read_offset = some r.read_offset })
            else get other mgr)
    unfolding read_turn
    read_turn_offset sid path mgr w state known other p r e =
        rw (read_turn, e) (get-set_last_read_offset sid other r.read_offset mgr state known)

    on_turn_path :
        (sid : SessionId) (path : String) (mgr : SessionManager) (w : World)
        → path ≢ ""
        → on_turn os json hash sid (some path) mgr w ≡ read_turn os json hash sid path mgr w
    unfolding on_turn
    on_turn_path sid path mgr w nonempty =
        let there : str_eq path "" ≡ false = ground (arith, eq_iff path "") in
        rw (on_turn, there) refl

    -- A new turn complete event, in the sessions and the world that its recording leaves.
    on_event_fresh :
        (event : WireEvent) (mgr : SessionManager) (w : World) (sid : SessionId) (tid : TurnId)
        (path : String)
        → event.kind ≡ turn_complete sid tid (some path)
        → path ≢ ""
        → (record_dedup sid tid.as_str (some path) mgr).0 ≡ new
        → on_event os json hash event mgr w
          ≡ read_turn os json hash sid path (record_dedup sid tid.as_str (some path) mgr).1 w
    unfolding on_event on_verdict on_new
    on_event_fresh event mgr w sid tid path kind nonempty fresh =
        rw (on_event, record_event_turn event mgr w sid tid (some path) kind, fresh)
          (rw kind (on_turn_path sid path _ w nonempty))

    module _ (event : WireEvent) (mgr : SessionManager) (w : World) (sid : SessionId) (tid : TurnId)
        (path : String) (kind : event.kind ≡ turn_complete sid tid (some path))
        (nonempty : path ≢ "") (fresh : (record_dedup sid tid.as_str (some path) mgr).0 ≡ new) where
      -- The sessions after the recording, and the reader's answer.
      abbrev pub recorded : SessionManager
      recorded = (record_dedup sid tid.as_str (some path) mgr).1

      abbrev pub reading : Result SourceError (ProbeOutcome × TurnRead) × World
      reading = read_complete os json hash path (last_read_offset_of sid recorded) w

      -- The event of a new turn with a path that is not empty is read once, from the offset of its
      -- session, and the world is then that of the reading with exactly the reader's complaint marked,
      -- if it has one: drift, a cut file, a failed read.
      pub on_event_world :
          (on_event os json hash event mgr w).1 ≡ complain (complaint reading.0) reading.1
      on_event_world =
          rw (on_event_fresh event mgr w sid tid path kind nonempty fresh)
            (read_turn_world sid path recorded w)

      -- If the reader of such a turn has a complaint, and the marker can be written to a file system
      -- that keeps what is written, the marker then holds the complaint: loud, never silent.
      pub on_event_loud :
          WritesFiles os
          → (reason : String) → complaint reading.0 ≡ some reason
          → (mark_degraded os reason reading.1).0 ≡ ok tt
          → (marker : String) × (marker_path os reading.1 ≡ ok marker)
            × (text_at marker (on_event os json hash event mgr w).1 ≡ some reason)
      on_event_loud files reason told wrote =
          let (marker, here, text) = mark_degraded_text os files reason reading.1 wrote in
          (marker, here, rw (on_event_world, told) text)

      -- The offset that a successful reading of such a turn returns is stored in the session, which
      -- is tracked, and every other session stays as the recording left it.
      pub on_event_offset :
          (state : SessionState)
          → get sid recorded ≡ some state
          → (other : SessionId) (p : ProbeOutcome) (r : TurnRead) → reading.0 ≡ ok (p, r)
          → get other (on_event os json hash event mgr w).0 ≡ (
              if str_eq sid.as_str other.as_str
              then some (record state { last_read_offset = some r.read_offset })
              else get other recorded)
      on_event_offset state known other p r e =
          rw (on_event_fresh event mgr w sid tid path kind nonempty fresh)
            (read_turn_offset sid path recorded w state known other p r e)

    -- A turn whose id is that of the last event of its tracked session changes nothing: nothing is
    -- read, nothing is marked.
    pub on_event_repeat :
        (event : WireEvent) (mgr : SessionManager) (w : World) (sid : SessionId) (tid : TurnId)
        (path : Option String) (state : SessionState)
        → event.kind ≡ turn_complete sid tid path
        → get sid mgr ≡ some state
        → state.last_event_id ≡ some tid.as_str
        → on_event os json hash event mgr w ≡ (mgr, w)
    unfolding on_event on_verdict
    on_event_repeat event mgr w sid tid path state kind known last =
        rw
          (
            on_event,
            record_event_turn event mgr w sid tid path kind,
            record_dedup_repeat sid tid.as_str path mgr state known last,
          )
          refl
