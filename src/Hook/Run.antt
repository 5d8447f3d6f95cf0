-- ===== src/Hook/Run.antt =====
-- crates/pulse-hook/src/main.rs and cli.rs: the hook process from its input to its exit code and its
-- messages on standard error.
pub mod EndToEnd
pub mod Codes
pub mod Messages
pub mod Retried
pub mod Delivered
pub mod Reported
use pulse_narrator.Prelude.{
  ℕ, ◌==◌, String, ◌<>◌, List, [], ◌∷◌, ◌++◌, Bool, true, false, Option, none, some, if◌then◌else◌,
}
use pulse_narrator.Prelude.Results.{Result, ok, err}
use pulse_narrator.System.{Os, IoError}
use pulse_narrator.Core.Wire.{WireEvent, hook_degraded, new, JsonError, Serde}
use pulse_narrator.Hook.Payload.{ClaudeHookPayload, default_payload, HookKind}
use pulse_narrator.Hook.Build.{build_event}
use pulse_narrator.Hook.Dispatch.{
  DeliverOutcome, delivered, socket_absent, connect_failed, write_timed_out, Socket, deliver,
  default_connect_timeout, default_write_timeout,
}

pub data HookKindArg : Type 0 where
  stop notification : HookKindArg

-- `From<HookKindArg> for HookKind`
unfoldable pub to_hook_kind : HookKindArg → HookKind
to_hook_kind HookKindArg.stop = HookKind.stop
to_hook_kind HookKindArg.notification = HookKind.notification

pub record Cli : Type 0 where
  pub socket_path : String
  pub hook_kind : HookKindArg
  pub timeout_ms : ℕ

unfoldable pub resolve_timeouts : ℕ → ℕ × ℕ
resolve_timeouts timeout_ms =
    if timeout_ms == 0
    then (default_connect_timeout, default_write_timeout)
    else (timeout_ms, timeout_ms)

-- The `match` of `deliver_and_exit`: `ExitCode::SUCCESS` is 0.
unfoldable pub exit_status : DeliverOutcome → ℕ
exit_status delivered = 0
exit_status socket_absent = 2
exit_status connect_failed = 3
exit_status write_timed_out = 4

-- `read_payload_stdin`: the bytes as they are. `stdin` is what reading standard input to its end
-- gives.
unfoldable pub read_payload_stdin : Result IoError (List ℕ) → Result IoError (List ℕ)
read_payload_stdin (err e) = err e
read_payload_stdin (ok buf) = ok buf

-- How the process ends: its exit code, and its messages on standard error.
pub record Exit : Type 0 where
  pub code : ℕ
  pub messages : List String

-- The process has printed a message before it came to this end.
unfoldable pub after_message : List String → Exit → Exit
after_message before exit = record exit { messages = before ++ exit.messages }

-- What serde_json makes of the payload's bytes: the derived, tolerant reading.
module _ (from_bytes : List ℕ → Result JsonError ClaudeHookPayload) (hash : List ℕ → ℕ) where
  unfoldable pub parsed_event : Result JsonError ClaudeHookPayload → List ℕ → HookKind → WireEvent
  parsed_event (ok payload) raw_payload hook_kind = build_event hash payload raw_payload hook_kind
  parsed_event (err e) raw_payload hook_kind =
      new (hook_degraded ("payload JSON parse failed: " <> e.message) none)

  -- The event of an input: an empty one is the default payload.
  unfoldable pub event_for : List ℕ → HookKind → WireEvent
  event_for [] hook_kind = build_event hash default_payload [] hook_kind
  event_for (b ∷ bs) hook_kind = parsed_event (from_bytes (b ∷ bs)) (b ∷ bs) hook_kind

  -- The message of a payload that does not parse.
  abbrev parse_message : Result JsonError ClaudeHookPayload → List String
  parse_message (ok payload) = []
  parse_message (err e) = ("pulse-hook: payload JSON parse failed: " <> e.message) ∷ []

  unfoldable pub parse_messages : List ℕ → List String
  parse_messages [] = []
  parse_messages (b ∷ bs) = parse_message (from_bytes (b ∷ bs))

  -- `debug` is how `{:?}` prints a `Duration` of so many milliseconds.
  module _ (os : Os) (socket : Socket os) (serde : Serde) (debug : ℕ → String) where
    open os use {World}

    -- The message of each outcome.
    unfoldable pub outcome_messages : DeliverOutcome → String → ℕ → ℕ → List String
    outcome_messages delivered socket_path connect_t write_t = []
    outcome_messages socket_absent socket_path connect_t write_t =
        ("pulse-hook: daemon not running (no socket at " <> (socket_path <> ")")) ∷ []
    outcome_messages connect_failed socket_path connect_t write_t =
        ("pulse-hook: connect to "
          <> (socket_path <> (" refused or timed out (>" <> (debug connect_t <> ")"))))
        ∷ []
    outcome_messages write_timed_out socket_path connect_t write_t =
        ("pulse-hook: frame write to "
          <> (socket_path <> (" did not complete (>" <> (debug write_t <> ")"))))
        ∷ []

    unfoldable pub deliver_and_exit : Cli → WireEvent → World → Exit × World
    unfolding outcome_messages
    deliver_and_exit cli event w =
        let (connect_t, write_t) = resolve_timeouts cli.timeout_ms in
        let (outcome, w') = deliver os socket serde event cli.socket_path connect_t write_t w in
        (
          record {
            code = exit_status outcome;
            messages = outcome_messages outcome cli.socket_path connect_t write_t;
          },
          w',
        )

    -- From the payload on.
    unfoldable pub on_payload : Cli → Result IoError (List ℕ) → World → Exit × World
    unfolding after_message parse_messages
    on_payload cli (err e) w = (
      record {
        code = 4;
        messages = ("pulse-hook: failed to read payload from stdin: " <> e.message) ∷ [];
      },
      w,
    )
    on_payload cli (ok raw_payload) w =
        let (exit, w') =
          deliver_and_exit cli (event_for raw_payload (to_hook_kind cli.hook_kind)) w in
        (after_message (parse_messages raw_payload) exit, w')

    unfoldable pub run : Cli → Result IoError (List ℕ) → World → Exit × World
    unfolding read_payload_stdin on_payload
    run cli stdin w = on_payload cli (read_payload_stdin stdin) w

    -- `main`; `runtime` is what `Runtime::new` gives.
    unfoldable pub main :
        Result IoError (Unit {0}) → Cli → Result IoError (List ℕ) → World → Exit × World
    main (err e) cli stdin w = (
      record {
        code = 4;
        messages = ("pulse-hook: failed to start tokio runtime: " <> e.message) ∷ [];
      },
      w,
    )
    main (ok runtime) cli stdin w = run cli stdin w
