-- ===== src/Hook/Run/Delivered.antt =====
-- A turn whose hook has delivered it: the daemon reads it, and once.
use pulse_narrator.Prelude.{
  ℕ, ◌≤◌, String, ◌≡◌, ◌⊎◌, refl, sym, List, [], ◌∷◌, Option, some, false, inl, inr, arith, eq_refl,
}
use pulse_narrator.Prelude.Results.{Result, ok}
use pulse_narrator.System.{Os}
use pulse_narrator.Core.Source.{ProbeOutcome, TurnRead}
use pulse_narrator.Core.Wire.{
  WireEvent, WireError, WireEventKind, turn_complete, attention_hint, hook_degraded, Serde,
  IsLawful,
}
use pulse_narrator.Core.Wire.Stream.{AsyncRead, ReadsExactly, read_frame}
use pulse_narrator.Source.Error.{SourceError}
use pulse_narrator.Daemon.Session.Dedup.{repeats}
use pulse_narrator.Daemon.Connection.{
  Timeout, Completes, read_timeout, receive_frame, check_version,
}
use pulse_narrator.Daemon.Connection.Arrived.{receive_frame-encode_wire}
use pulse_narrator.Daemon.Tasks.{Choice, go, accept, outside, Shared, gated, received, run}
use pulse_narrator.Daemon.Tasks.Reads.{readable, reads_in_run}
use pulse_narrator.Daemon.Tasks.Carried.{AllCarry}
use pulse_narrator.Daemon.Tasks.Turns.{IsTurn, wanted}
use pulse_narrator.Daemon.Tasks.Done.{AllDone}
use pulse_narrator.Daemon.Tasks.Exactly.{brought, brought_by, delivered_turn_read_once}
use pulse_narrator.Hook.Payload.{ClaudeHookPayload, stop}
use pulse_narrator.Hook.Build.{nonempty}
use pulse_narrator.Hook.Build.Turns.{Unnamed, build_event_stop, build_event_version}
use pulse_narrator.Hook.Run.Retried.{
  session, the_event, the_id, Retries, IsForeign, AllRetries, Retries-received,
}

module _ (os : Os) (hash : List ℕ → ℕ) (serde : Serde) (R : AsyncRead) (T : Timeout R)
    (read : String → Option ℕ → os.World → Result SourceError (ProbeOutcome × TurnRead) × os.World)
    (payload : ClaudeHookPayload) (raw : List ℕ) (sid : String) where
  open os use {World}
  open R use {Reader, pending}

  foreign-IsTurn :
      (kind : WireEventKind)
      → IsForeign os hash serde R T read payload raw sid kind
      → IsTurn (session sid) (the_id hash raw sid) kind
  foreign-IsTurn (turn_complete s tid path) f = λ own. absurd (f own)
  foreign-IsTurn (attention_hint s event_id raw_kind path) f = f
  foreign-IsTurn (hook_degraded reason s) f = tt

  -- A connection that brings the turn in time.
  abbrev pub DeliversInTime : Reader → Type 0
  DeliversInTime r =
      Retries os hash serde R T read payload raw sid r
      × ((x : Result WireError WireEvent × Reader) × (T.timeout read_timeout (read_frame serde R) r
            ≡ some x))

  -- Some connection of a schedule is such a one.
  abbrev pub SomeDelivers : List (Choice os (receive_frame serde R T) read) → Type 0
  SomeDelivers [] = ⊥
  SomeDelivers (go i ∷ choices) = SomeDelivers choices
  SomeDelivers (accept r ∷ choices) = DeliversInTime r ⊎ SomeDelivers choices
  SomeDelivers (outside change ∷ choices) = SomeDelivers choices

  module _ (lawful : IsLawful serde) (completes : Completes R T) (exact : ReadsExactly R)
      (unnamed : Unnamed os hash sid payload)
      (path : readable (nonempty payload.transcript_path) ≡ 1) where
    the_event-IsTurn : IsTurn (session sid) (the_id hash raw sid) (the_event hash payload raw).kind
    the_event-IsTurn =
        rw (build_event_stop hash payload raw sid unnamed.0 unnamed.1) (λ own. (refl, path))

    AllRetries-IsTurn :
        (choices : List (Choice os (receive_frame serde R T) read))
        → AllRetries os hash serde R T read payload raw sid choices
        → AllCarry os
            (receive_frame serde R T)
            read
            (IsTurn (session sid) (the_id hash raw sid))
            choices
    AllRetries-IsTurn [] all = tt
    AllRetries-IsTurn (go i ∷ choices) all = AllRetries-IsTurn choices all
    AllRetries-IsTurn (accept r ∷ choices) (inl again, all) = (
      λ event h.
          rw
            (sym (
              Retries-received os hash serde R T read payload raw sid lawful completes exact unnamed
                r event again h))
            the_event-IsTurn,
      AllRetries-IsTurn choices all,
    )
    AllRetries-IsTurn (accept r ∷ choices) (inr foreign, all) =
        (λ event h. foreign-IsTurn event.kind (foreign event h), AllRetries-IsTurn choices all)
    AllRetries-IsTurn (outside change ∷ choices) all = AllRetries-IsTurn choices all

    in_time-received :
        (r : Reader)
        → DeliversInTime r
        → receive_frame serde R T r ≡ ok (the_event hash payload raw)
    in_time-received r ((frame, encoded, fits, holds), (x, in_time)) =
        receive_frame-encode_wire serde lawful (the_event hash payload raw) frame encoded fits R T
          completes exact r x holds in_time

    passes : check_version (the_event hash payload raw) ≡ ok tt
    unfolding check_version
    passes = rw (check_version, build_event_version hash payload raw stop) refl

    is_wanted : wanted (session sid) (the_id hash raw sid) (the_event hash payload raw).kind ≡ 1
    is_wanted = rw (build_event_stop hash payload raw sid unnamed.0 unnamed.1, eq_refl sid) refl

    in_time-brought :
        (r : Reader)
        → DeliversInTime r
        → brought_by os
            (receive_frame serde R T)
            read
            (session sid)
            (the_id hash raw sid)
            (accept r)
          ≡ 1
    unfolding received gated
    in_time-brought r d = rw (received, in_time-received r d) (rw (gated, passes) is_wanted)

    SomeDelivers-brought :
        (choices : List (Choice os (receive_frame serde R T) read))
        → SomeDelivers choices
        → 1 ≤ brought os (receive_frame serde R T) read (session sid) (the_id hash raw sid) choices
    SomeDelivers-brought [] none_left = absurd none_left
    SomeDelivers-brought (go i ∷ choices) more = omega (arith, SomeDelivers-brought choices more)
    SomeDelivers-brought (accept r ∷ choices) (inl now) = omega (arith, in_time-brought r now)
    SomeDelivers-brought (accept r ∷ choices) (inr more) =
        omega (arith, SomeDelivers-brought choices more)
    SomeDelivers-brought (outside change ∷ choices) more =
        omega (arith, SomeDelivers-brought choices more)

    -- The transcript of a turn that its stop hook has delivered in time is read exactly once by the
    -- time that all handlers have finished, however often the hook is run, and however the handlers
    -- interleave with each other, with other sessions' and with other programs. Conditions: the payload
    -- has a session, a path and no message id, the turn is not the last event of its session, the JSON
    -- text of an event reads back as it, the frame is at most 2^32 + 3 bytes long, the daemon reads
    -- frames by exact reads that a timeout does not change, no handler runs at first, and no other turn
    -- or hint of the session arrives.
    pub hooked_turn_read_once :
        (choices : List (Choice os (receive_frame serde R T) read))
        (shared : Shared os (receive_frame serde R T) read)
        → AllRetries os hash serde R T read payload raw sid choices
        → SomeDelivers choices
        → repeats (session sid) (the_id hash raw sid) shared.0 ≡ false
        → AllDone
            (run os
              (receive_frame serde R T)
              read
              choices
              (record { tasks = []; shared = shared })).tasks
        → reads_in_run os
            (receive_frame serde R T)
            read
            (session sid)
            choices
            (record { tasks = []; shared = shared })
          ≡ 1
    hooked_turn_read_once choices shared all some_one fresh done =
        delivered_turn_read_once os (receive_frame serde R T) read (session sid)
          (the_id hash raw sid) choices shared (AllRetries-IsTurn choices all)
          (SomeDelivers-brought choices some_one) fresh done
