-- ===== src/Hook/Run/EndToEnd.antt =====
-- From the hook's input to the daemon's session: what an exit code of zero promises.
use pulse_narrator.Prelude.{
  ℕ, ◌+◌, ◌*◌, ◌==◌, if◌then◌else◌, ◌^◌, ◌<◌, ◌≤◌, ◌≡◌, String, refl, sym, ◌∙◌, List, [], ◌∷◌, some,
  arith, length,
}
use pulse_narrator.Prelude.Results.{Result, ok, err}
use pulse_narrator.System.{Os, IoError}
use pulse_narrator.Core.Wire.{WireEvent, WireError, new, JsonError, Serde, IsLawful, wire_version}
use pulse_narrator.Core.Wire.Stream.{AsyncRead, ReadsExactly, read_frame}
use pulse_narrator.Source.Probe.{Json}
use pulse_narrator.Daemon.Session.{SessionManager}
use pulse_narrator.Daemon.Connection.{Timeout, Completes, read_timeout, on_event, handle_connection}
use pulse_narrator.Daemon.Connection.Refusal.{handle_connection-answer}
use pulse_narrator.Daemon.Connection.Arrived.{decode_wire-frame}
use pulse_narrator.Hook.Payload.{ClaudeHookPayload, default_payload, HookKind}
use pulse_narrator.Hook.Build.Turns.{build_event_version}
use pulse_narrator.Hook.Dispatch.{DeliverOutcome, delivered, exit_code, Socket, Bounded}
use pulse_narrator.Hook.Dispatch.Outcomes.{Sent, deliver-delivered, deliver_bounded, exit_code_inj}
use pulse_narrator.Hook.Run.{
  Cli, to_hook_kind, resolve_timeouts, exit_status, parsed_event, event_for, deliver_and_exit,
  read_payload_stdin, on_payload, after_message, run, main,
}

-- The exit codes of the two tables are the same.
exit_status-exit_code : (o : DeliverOutcome) → exit_status o ≡ exit_code o
unfolding exit_status exit_code
exit_status-exit_code o = ground arith

-- The two timeouts together.
resolved :
    (timeout_ms : ℕ)
    → (resolve_timeouts timeout_ms).0 + (resolve_timeouts timeout_ms).1
      ≡ (if timeout_ms == 0 then 700 else 2 * timeout_ms)
unfolding resolve_timeouts
resolved timeout_ms = ground arith

module _ (from_bytes : List ℕ → Result JsonError ClaudeHookPayload) (hash : List ℕ → ℕ) where
  pub event_for_version :
      (raw : List ℕ) (kind : HookKind)
      → (event_for from_bytes hash raw kind).schema_version ≡ wire_version
  unfolding event_for parsed_event new
  event_for_version [] kind = build_event_version hash default_payload [] kind
  event_for_version (b ∷ bs) kind = parsed (from_bytes (b ∷ bs))
    where
      parsed :
          (p : Result JsonError ClaudeHookPayload)
          → (parsed_event from_bytes hash p (b ∷ bs) kind).schema_version ≡ wire_version
      parsed (ok payload) = build_event_version hash payload (b ∷ bs) kind
      parsed (err e) = refl

  module _ (os : Os) (socket : Socket os) (serde : Serde) (cli : Cli) (w : os.World) where
    -- What a run delivers, and within what times.
    abbrev pub event_of_run : List ℕ → WireEvent
    event_of_run raw = event_for from_bytes hash raw (to_hook_kind cli.hook_kind)

    abbrev pub SentByRun : List ℕ → Type 0
    SentByRun raw =
        Sent os socket serde (event_of_run raw) cli.socket_path (resolve_timeouts cli.timeout_ms).0
          (resolve_timeouts cli.timeout_ms).1 w

    abbrev pub on_stream : (raw : List ℕ) → SentByRun raw → List ℕ
    on_stream raw s =
        socket.sent
          (socket.write_all (resolve_timeouts cli.timeout_ms).1 s.frame s.stream
            (socket.connect (resolve_timeouts cli.timeout_ms).0 cli.socket_path w).1).1

    -- A run on an input that was read, over a socket that keeps tokio's promises, has sent exactly
    -- the frame of the event of its input if it exits with zero.
    pub run_success :
        (debug : ℕ → String)
        → Bounded os socket
        → (raw : List ℕ) → (run from_bytes hash os socket serde debug cli (ok raw) w).0.code ≡ 0
        → (s : SentByRun raw) × (on_stream raw s ≡ s.frame)
    unfolding run on_payload read_payload_stdin after_message deliver_and_exit exit_code
    run_success debug law raw zero =
        deliver-delivered os socket serde law (event_of_run raw) cli.socket_path _ _ w
          (exit_code_inj _ delivered (sym (exit_status-exit_code _) ∙ zero))

    -- Whatever the runtime and standard input are, the hook process, over a socket that keeps tokio's
    -- promises, blocks the agent for at most 700 milliseconds once standard input is read, or for
    -- twice `--timeout` if that is given and not zero.
    pub main_bounded :
        (debug : ℕ → String)
        → Bounded os socket
        → (runtime : Result IoError (Unit {0})) (stdin : Result IoError (List ℕ))
        → os.clock (main from_bytes hash os socket serde debug runtime cli stdin w).1
          ≤ os.clock w + (if cli.timeout_ms == 0 then 700 else 2 * cli.timeout_ms)
    unfolding main run on_payload read_payload_stdin after_message deliver_and_exit
    main_bounded debug law (err e) stdin = omega arith
    main_bounded debug law (ok u) (err e) = omega arith
    main_bounded debug law (ok u) (ok raw) = omega (
      arith,
      deliver_bounded os socket serde law (event_of_run raw) cli.socket_path
          (resolve_timeouts cli.timeout_ms).0 (resolve_timeouts cli.timeout_ms).1 w,
      resolved cli.timeout_ms,
    )

    module _ (R : AsyncRead) (T : Timeout R) (json : Json) (lawful : IsLawful serde) where
      -- What a run has sent, the daemon takes for the event of the run's input and handles: no version
      -- error, no truncation, no other event. Conditions: the JSON text of an event reads back as it,
      -- the frame is at most 2^32 + 3 bytes long, and the daemon reads it in time, by exact reads, from
      -- a stream that holds it and nothing else.
      pub sent-handled :
          Completes R T
          → ReadsExactly R
          → (raw : List ℕ) (s : SentByRun raw) → length s.frame < 4 + 2 ^ 32
          → (r : R.Reader) (x : Result WireError WireEvent × R.Reader) (mgr : SessionManager)
            (w' : os.World)
          → R.pending r ≡ s.frame
          → T.timeout read_timeout (read_frame serde R) r ≡ some x
          → handle_connection os json hash serde R T r (mgr, w')
            ≡ (ok tt, on_event os json hash (event_of_run raw) mgr w')
      sent-handled completes exact raw s fits r x mgr w' holds in_time =
          handle_connection-answer serde R T os json hash completes exact r x mgr w' in_time
          ∙ rw (holds, decode_wire-frame serde lawful (event_of_run raw) s.frame s.encoded fits)
              (rw (event_for_version raw (to_hook_kind cli.hook_kind)) refl)
