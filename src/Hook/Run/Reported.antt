-- ===== src/Hook/Run/Reported.antt =====
-- A payload that identifies no event: from the hook's input to the daemon's DEGRADED marker.
use pulse_narrator.Prelude.{
  ℕ, ◌+◌, ◌^◌, ◌<◌, ◌≤◌, String, ◌≡◌, ◌⊎◌, refl, List, [], ◌∷◌, Option, none, some, inl, inr, arith,
  length,
}
use pulse_narrator.Prelude.Results.{Result, ok, err}
use pulse_narrator.System.{Os, WritesFiles}
use pulse_narrator.Core.Source.{ProbeOutcome, TurnRead}
use pulse_narrator.Core.Wire.{WireEvent, WireError, new, JsonError, Serde, IsLawful, encode_wire}
use pulse_narrator.Core.Wire.Stream.{AsyncRead, ReadsExactly, read_frame}
use pulse_narrator.Source.Error.{SourceError}
use pulse_narrator.Daemon.Degraded.{marker_path, mark_degraded}
use pulse_narrator.Daemon.Connection.{
  Timeout, Completes, read_timeout, receive_frame, check_version,
}
use pulse_narrator.Daemon.Connection.Arrived.{receive_frame-encode_wire}
use pulse_narrator.Daemon.Connection.Marked.{degrades, IsMarked}
use pulse_narrator.Daemon.Tasks.{received, gated, Choice, go, accept, outside, Process, run}
use pulse_narrator.Daemon.Tasks.Complaints.{LeaveMarker}
use pulse_narrator.Daemon.Tasks.Done.{AllDone}
use pulse_narrator.Daemon.Tasks.Reported.{reports, reports_by, report-IsMarked}
use pulse_narrator.Hook.Payload.{ClaudeHookPayload, default_payload, HookKind}
use pulse_narrator.Hook.Payload.Precedence.{usable, pinned, derive_event-pinned}
use pulse_narrator.Hook.Build.{build_event, event_of}
use pulse_narrator.Hook.Run.{event_for, parsed_event}
use pulse_narrator.Hook.Run.EndToEnd.{event_for_version}

-- A payload with neither a message id nor a session that is not blank.
abbrev pub IsAnonymous : ClaudeHookPayload → Type 0
IsAnonymous payload = (usable payload.message_id ≡ none) × (usable payload.session_id ≡ none)

module _ (from_bytes : List ℕ → Result JsonError ClaudeHookPayload) (hash : List ℕ → ℕ) where
  -- An input that identifies no event: it is empty, or does not parse, or is anonymous.
  abbrev pub IsLost : List ℕ → Type 0
  IsLost raw =
      (raw ≡ [])
      ⊎ ((e : JsonError) × (from_bytes raw ≡ err e))
      ⊎ ((payload : ClaudeHookPayload) × (from_bytes raw ≡ ok payload) × IsAnonymous payload)

  build_event-degrades :
      (payload : ClaudeHookPayload) (raw : List ℕ) (kind : HookKind)
      → IsAnonymous payload
      → degrades (build_event hash payload raw kind).kind ≡ 1
  unfolding build_event event_of new
  build_event-degrades payload raw kind (no_message, no_session) =
      rw (build_event, derive_event-pinned hash payload raw kind)
        (rw (pinned, no_message, no_session) refl)

  event_for-degrades :
      (raw : List ℕ) (kind : HookKind)
      → IsLost raw
      → degrades (event_for from_bytes hash raw kind).kind ≡ 1
  unfolding event_for parsed_event new
  event_for-degrades [] kind lost = build_event-degrades default_payload [] kind (refl, refl)
  event_for-degrades (b ∷ bs) kind (inl e) = absurd (cc e)
  event_for-degrades (b ∷ bs) kind (inr (inl (e, failed))) = rw failed refl
  event_for-degrades (b ∷ bs) kind (inr (inr (payload, parsed, anonymous))) =
      rw parsed (build_event-degrades payload (b ∷ bs) kind anonymous)

module _ (from_bytes : List ℕ → Result JsonError ClaudeHookPayload) (os : Os) (hash : List ℕ → ℕ)
    (serde : Serde) (R : AsyncRead) (T : Timeout R)
    (read : String → Option ℕ → os.World → Result SourceError (ProbeOutcome × TurnRead) × os.World)
    (raw : List ℕ) (kind : HookKind) where
  open os use {World}
  open R use {Reader, pending}

  abbrev lost_event : WireEvent
  lost_event = event_for from_bytes hash raw kind

  -- A connection that holds the frame of the event of the input, and gives it in time.
  abbrev pub ArrivesInTime : Reader → Type 0
  ArrivesInTime r =
      (frame : List ℕ) × (encode_wire serde lost_event ≡ ok frame)
      × (length frame < 4 + 2 ^ 32)
      × (pending r ≡ frame)
      × ((x : Result WireError WireEvent × Reader) × (T.timeout read_timeout (read_frame serde R) r
            ≡ some x))

  -- Some connection of the schedule brings it.
  abbrev pub SomeArrives : List (Choice os (receive_frame serde R T) read) → Type 0
  SomeArrives [] = ⊥
  SomeArrives (go i ∷ choices) = SomeArrives choices
  SomeArrives (accept r ∷ choices) = ArrivesInTime r ⊎ SomeArrives choices
  SomeArrives (outside change ∷ choices) = SomeArrives choices

  module _ (lost : IsLost from_bytes hash raw) (lawful : IsLawful serde) (completes : Completes R T)
      (exact : ReadsExactly R) where
    passes : check_version lost_event ≡ ok tt
    unfolding check_version
    passes = rw (check_version, event_for_version from_bytes hash raw kind) refl

    ArrivesInTime-reports :
        (r : Reader) → ArrivesInTime r → reports_by os (receive_frame serde R T) read (accept r) ≡ 1
    unfolding received gated
    ArrivesInTime-reports r (frame, encoded, fits, holds, (x, in_time)) =
        let got : receive_frame serde R T r ≡ ok lost_event =
          receive_frame-encode_wire serde lawful lost_event frame encoded fits R T completes exact r
            x holds in_time in
        rw (received, got) (rw (gated, passes) (event_for-degrades from_bytes hash raw kind lost))

    SomeArrives-reports :
        (choices : List (Choice os (receive_frame serde R T) read))
        → SomeArrives choices
        → 1 ≤ reports os (receive_frame serde R T) read choices
    SomeArrives-reports [] none_left = absurd none_left
    SomeArrives-reports (go i ∷ choices) more = omega (arith, SomeArrives-reports choices more)
    SomeArrives-reports (accept r ∷ choices) (inl now) = omega (arith, ArrivesInTime-reports r now)
    SomeArrives-reports (accept r ∷ choices) (inr more) =
        omega (arith, SomeArrives-reports choices more)
    SomeArrives-reports (outside change ∷ choices) more =
        omega (arith, SomeArrives-reports choices more)

    -- From end to end, loud and never silent: if the input of a hook is empty, does not parse, or has
    -- neither a message id nor a session, and its frame reaches the daemon in time, then the marker is
    -- there when all handlers have finished, however they interleave with each other and with other
    -- programs. Conditions: the JSON text of an event reads back as it, the frame is at most 2^32 + 3
    -- bytes long, the daemon reads frames by exact reads that a timeout does not change, HOME is set,
    -- the marker can be written to a file system that keeps what is written, and neither the reading of
    -- transcripts nor other programs take it away.
    pub lost_payload-IsMarked :
        (path : String)
        → WritesFiles os
        → ((w : World) → marker_path os w ≡ ok path)
        → ((reason : String) (w : World) → (mark_degraded os reason w).0 ≡ ok tt)
        → ((s : String) (last : Option ℕ) (w : World)
            → IsMarked os path w
            → IsMarked os path (read s last w).1)
        → (choices : List (Choice os (receive_frame serde R T) read))
          (p : Process os (receive_frame serde R T) read)
        → LeaveMarker os (receive_frame serde R T) read path choices
        → SomeArrives choices
        → AllDone (run os (receive_frame serde R T) read choices p).tasks
        → IsMarked os path (run os (receive_frame serde R T) read choices p).shared.1
    lost_payload-IsMarked path files has_home writable leaves choices p left some_one done =
        report-IsMarked os (receive_frame serde R T) read path files has_home writable leaves
          choices p left (SomeArrives-reports choices some_one) done
