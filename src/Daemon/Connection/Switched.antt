-- ===== src/Daemon/Connection/Switched.antt =====
-- The offset of a session, held against the transcript of its next turn.
use pulse_narrator.Prelude.{
  ℕ, ◌<◌, String, ◌≡◌, ◌≢◌, refl, ap, ◌∙◌, List, Bool, true, false, Option, some, str_eq,
  if◌then◌else◌, eq_refl, inl, inr, Bool-cases,
}
use pulse_narrator.Prelude.Results.{ok}
use pulse_narrator.System.{Os}
use pulse_narrator.Core.Event.{SessionId, TurnId}
use pulse_narrator.Core.Wire.{WireEvent, turn_complete}
use pulse_narrator.Source.Probe.{Json}
use pulse_narrator.Source.Settle.{file_size}
use pulse_narrator.Source.Reader.{truncated_read, read_complete}
use pulse_narrator.Source.Reader.Verdicts.{read_complete-cases}
use pulse_narrator.Daemon.Degraded.{mark_degraded}
use pulse_narrator.Daemon.Session.{new, SessionState, SessionManager, get, receive, record_dedup}
use pulse_narrator.Daemon.Session.Dedup.{
  found, repeats, is_last_iff, record_dedup-repeats, get-record_dedup,
}
use pulse_narrator.Daemon.Connection.{last_read_offset_of, on_event}
use pulse_narrator.Daemon.Connection.Loud.{reading, on_event_world, on_event_offset}

-- A file that is shorter than the offset is reported as cut, in the world as it is.
read_complete_shorter :
    (os : Os) (json : Json) (hash : List ℕ → ℕ) (path : String) (prior current : ℕ) (w : os.World)
    → file_size os path w ≡ ok current
    → current < prior
    → read_complete os json hash path (some prior) w ≡ (ok (truncated_read current), w)
read_complete_shorter os json hash path prior current w seen less =
    elim (read_complete-cases os json hash path (some prior) w) [
      | inl (_, not_shrunk) ↦ absurd (not_shrunk current (prior, refl, seen, less))
      | inr (inl (e, gone, _)) ↦ absurd (cc (gone, seen))
      | inr (inr (c, (_, _, seen', _), cut)) ↦
          let same : c ≡ current = cc (seen', seen) in rw (← same) cut
    ]

module _ (sid : SessionId) (event_id : String) (path : Option String) (mgr : SessionManager)
    (state : SessionState) (known : get sid mgr ≡ some state)
    (other : state.last_event_id ≢ some event_id) where
  not_repeated : repeats sid event_id mgr ≡ false
  not_repeated = elim (Bool-cases (repeats sid event_id mgr)) [
    | inr fresh ↦ fresh
    | inl again ↦ absurd (other ((is_last_iff state.last_event_id event_id).0 (rw known at again)))
  ]

  record_dedup-new : (record_dedup sid event_id path mgr).0 ≡ new
  record_dedup-new = rw (record_dedup-repeats sid event_id path mgr, not_repeated) refl

  -- A new event leaves the offset of its session as it is.
  last_read_offset_of-record_dedup :
      last_read_offset_of sid (record_dedup sid event_id path mgr).1 ≡ state.last_read_offset
  unfolding last_read_offset_of receive
  last_read_offset_of-record_dedup =
      rw (last_read_offset_of, get-record_dedup sid sid event_id path mgr, eq_refl sid.as_str)
        (rw (not_repeated, known) refl)

  -- The sessions that the recording of a new event leaves.
  get-recorded :
      (id : SessionId)
      → get id (record_dedup sid event_id path mgr).1
        ≡ (if str_eq sid.as_str id.as_str then some (receive event_id path state) else get id mgr)
  get-recorded id =
      rw (get-record_dedup sid id event_id path mgr) (rw (not_repeated, found, known) refl)

unless_own :
    (own : Bool) (a b c x : Option SessionState)
    → x ≡ (if own then b else c)
    → (if own then a else x) ≡ (if own then a else c)
unless_own true a b c x h = refl
unless_own false a b c x h = h

module _ (os : Os) (json : Json) (hash : List ℕ → ℕ) where
  open os use {World}

  -- If a new turn of a tracked session has a transcript that is shorter than the session's offset, all
  -- that the handler does to the world is to mark a truncated transcript, and all that it does to the
  -- sessions is to record the turn and to set the offset of its session to the size of the transcript.
  -- The old offset may be that of another transcript: the path that the session had does not matter.
  pub on_event_shorter :
      (event : WireEvent) (mgr : SessionManager) (w : World) (sid : SessionId) (tid : TurnId)
      (path : String) (state : SessionState) (prior current : ℕ)
      → event.kind ≡ turn_complete sid tid (some path)
      → path ≢ ""
      → get sid mgr ≡ some state
      → state.last_event_id ≢ some tid.as_str
      → state.last_read_offset ≡ some prior
      → file_size os path w ≡ ok current
      → current < prior
      → ((on_event os json hash event mgr w).1
          ≡ (mark_degraded os "truncated transcript (size regression)" w).1)
        × ((id : SessionId)
            → get id (on_event os json hash event mgr w).0 ≡ (
                if str_eq sid.as_str id.as_str
                then some (record (receive tid.as_str (some path) state) {
                  last_read_offset = some current;
                })
                else get id mgr))
  unfolding truncated_read
  on_event_shorter event mgr w sid tid path state prior current kind nonempty known other offset
        seen less =
      let fresh = record_dedup-new sid tid.as_str (some path) mgr state known other in
      let cut : reading os json hash event mgr w sid tid path kind nonempty fresh
          ≡ (ok (truncated_read current), w) =
        ap (λ last. read_complete os json hash path last w)
          (last_read_offset_of-record_dedup sid tid.as_str (some path) mgr state known other
            ∙ offset)
        ∙ read_complete_shorter os json hash path prior current w seen less in
      let after = get-recorded sid tid.as_str (some path) mgr state known other in
      (
        rw (on_event_world os json hash event mgr w sid tid path kind nonempty fresh, cut) refl,
        λ id.
            on_event_offset os json hash event mgr w sid tid path kind nonempty fresh
              (receive tid.as_str (some path) state) (after sid ∙ rw (eq_refl sid.as_str) refl) id _
              _ (ap (λ a. a.0) cut)
            ∙ unless_own (str_eq sid.as_str id.as_str) _ _ _ _ (after id),
      )
