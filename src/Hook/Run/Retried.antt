-- ===== src/Hook/Run/Retried.antt =====
-- A hook that is run again and again for one turn, and the daemon that is reached every time.
use pulse_narrator.Prelude.{
  ℕ, ◌+◌, ◌^◌, ◌<◌, ◌≤◌, String, ◌≡◌, ◌≢◌, ◌⊎◌, refl, sym, ◌∙◌, List, [], ◌∷◌, Option, inl, inr,
  Option-cases, length,
}
use pulse_narrator.Prelude.Results.{Result, ok}
use pulse_narrator.System.{Os}
use pulse_narrator.Core.Event.{SessionId}
use pulse_narrator.Core.Source.{ProbeOutcome, TurnRead}
use pulse_narrator.Core.Wire.{
  WireEvent, WireEventKind, turn_complete, attention_hint, hook_degraded, Serde, IsLawful,
  encode_wire,
}
use pulse_narrator.Core.Wire.Stream.{AsyncRead, ReadsExactly, read_frame}
use pulse_narrator.Source.Error.{SourceError}
use pulse_narrator.Daemon.Connection.{Timeout, Completes, read_timeout, receive_frame}
use pulse_narrator.Daemon.Connection.Refusal.{receive_frame_in_time, receive_frame_slow}
use pulse_narrator.Daemon.Connection.Arrived.{decode_wire-frame}
use pulse_narrator.Daemon.Tasks.{Choice, go, accept, outside, Shared}
use pulse_narrator.Daemon.Tasks.Once.{HasId}
use pulse_narrator.Daemon.Tasks.Reads.{reads_in_run}
use pulse_narrator.Daemon.Tasks.Carried.{Carries, AllCarry}
use pulse_narrator.Daemon.Tasks.Retries.{reads_in_run-le}
use pulse_narrator.Hook.Payload.{ClaudeHookPayload, stop, synthesized_id}
use pulse_narrator.Hook.Build.{build_event}
use pulse_narrator.Hook.Build.Turns.{Unnamed, build_event_stop}

abbrev pub session : String → SessionId
session sid = record { as_str = sid }

-- The event of the turn, and its id.
abbrev pub the_event : (List ℕ → ℕ) → ClaudeHookPayload → List ℕ → WireEvent
the_event hash payload raw = build_event hash payload raw stop

abbrev pub the_id : (List ℕ → ℕ) → List ℕ → String → String
the_id hash raw sid = synthesized_id hash sid stop raw

module _ (os : Os) (hash : List ℕ → ℕ) (serde : Serde) (R : AsyncRead) (T : Timeout R)
    (read : String → Option ℕ → os.World → Result SourceError (ProbeOutcome × TurnRead) × os.World)
    (payload : ClaudeHookPayload) (raw : List ℕ) (sid : String) where
  open os use {World}
  open R use {Reader, pending}

  -- A connection that holds the frame of the turn, as a hook has sent it.
  abbrev pub Retries : Reader → Type 0
  Retries r =
      (frame : List ℕ) × (encode_wire serde (the_event hash payload raw) ≡ ok frame)
      × (length frame < 4 + 2 ^ 32)
      × (pending r ≡ frame)

  -- An event of another session.
  abbrev pub IsForeign : WireEventKind → Type 0
  IsForeign (turn_complete s tid path) = s.as_str ≢ sid
  IsForeign (attention_hint s event_id raw_kind path) = s.as_str ≢ sid
  IsForeign (hook_degraded reason s) = Unit

  abbrev pub BringsForeign : Reader → Type 0
  BringsForeign r =
      (event : WireEvent) → receive_frame serde R T r ≡ ok event → IsForeign event.kind

  -- The connections of a schedule: each brings the turn again, or an event of another session.
  abbrev pub AllRetries : List (Choice os (receive_frame serde R T) read) → Type 0
  AllRetries [] = Unit
  AllRetries (go i ∷ choices) = AllRetries choices
  AllRetries (accept r ∷ choices) = (Retries r ⊎ BringsForeign r) × AllRetries choices
  AllRetries (outside change ∷ choices) = AllRetries choices

  foreign-HasId :
      (kind : WireEventKind) → IsForeign kind → HasId (session sid) (the_id hash raw sid) kind
  foreign-HasId (turn_complete s tid path) f = λ own. absurd (f own)
  foreign-HasId (attention_hint s event_id raw_kind path) f = λ own. absurd (f own)
  foreign-HasId (hook_degraded reason s) f = tt

  module _ (lawful : IsLawful serde) (completes : Completes R T) (exact : ReadsExactly R)
      (unnamed : Unnamed os hash sid payload) where
    the_event-HasId : HasId (session sid) (the_id hash raw sid) (the_event hash payload raw).kind
    the_event-HasId = rw (build_event_stop hash payload raw sid unnamed.0 unnamed.1) (λ own. refl)

    pub Retries-received :
        (r : Reader) (event : WireEvent)
        → Retries r
        → receive_frame serde R T r ≡ ok event
        → (the_event hash payload raw) ≡ event
    Retries-received r event (frame, encoded, fits, holds) h =
        elim (Option-cases (T.timeout read_timeout (read_frame serde R) r)) [
          | inl slow ↦ absurd (cc (sym (receive_frame_slow serde R T r slow) ∙ h))
          | inr (x, in_time) ↦
              let decoded =
                decode_wire-frame serde lawful (the_event hash payload raw) frame encoded fits in
              let got = receive_frame_in_time serde R T completes exact r x in_time in
              cc (rw (holds, decoded) at (sym got ∙ h))
        ]

    Retries-Carries :
        (r : Reader)
        → Retries r ⊎ BringsForeign r
        → Carries os (receive_frame serde R T) read (HasId (session sid) (the_id hash raw sid)) r
    Retries-Carries r (inl again) event h =
        rw (sym (Retries-received r event again h)) the_event-HasId
    Retries-Carries r (inr foreign) event h = foreign-HasId event.kind (foreign event h)

    AllRetries-AllCarry :
        (choices : List (Choice os (receive_frame serde R T) read))
        → AllRetries choices
        → AllCarry os
            (receive_frame serde R T)
            read
            (HasId (session sid) (the_id hash raw sid))
            choices
    AllRetries-AllCarry [] all = tt
    AllRetries-AllCarry (go i ∷ choices) all = AllRetries-AllCarry choices all
    AllRetries-AllCarry (accept r ∷ choices) (one, all) =
        (Retries-Carries r one, AllRetries-AllCarry choices all)
    AllRetries-AllCarry (outside change ∷ choices) all = AllRetries-AllCarry choices all

    -- However often the stop hook of one turn is run, and however the daemon's handlers of its
    -- deliveries interleave with each other and with those of other sessions, the transcript of
    -- the turn is read at most once. Conditions: the payload has a session and no message id, the
    -- JSON text of an event reads back as it, the frame is at most 2^32 + 3 bytes long, the daemon
    -- reads frames by exact reads that a timeout does not change, no handler runs at first, and no
    -- other turn or hint of the session arrives.
    pub retried_turn_read_once :
        (choices : List (Choice os (receive_frame serde R T) read))
        (shared : Shared os (receive_frame serde R T) read)
        → AllRetries choices
        → reads_in_run os
            (receive_frame serde R T)
            read
            (session sid)
            choices
            (record { tasks = []; shared = shared })
          ≤ 1
    retried_turn_read_once choices shared all =
        reads_in_run-le os (receive_frame serde R T) read (session sid) (the_id hash raw sid)
          choices shared (AllRetries-AllCarry choices all)
