-- ===== src/Examples/Hook.antt =====
-- The hook, at concrete payloads.
use pulse_narrator.Prelude.{
  ℕ, ◌+◌, ◌≤◌, ◌≡◌, ◌≢◌, ◌↔◌, inr, refl, String, ◌<>◌, List, [], ◌∷◌, some, arith, length,
}
use pulse_narrator.Prelude.Results.{Result, ok}
use pulse_narrator.Prelude.Format.{decimal, is_blank, is_whitespace}
use pulse_narrator.Prelude.Words.{u32_le}
use pulse_narrator.Core.Wire.{new, JsonError, encode_wire}
use pulse_narrator.Daemon.Session as Session
use pulse_narrator.Daemon.Session.{duplicate, SessionManager, empty_manager, record_event}
use pulse_narrator.Daemon.Connection.{on_event, handle_connection}
use pulse_narrator.Hook.Payload.{
  ClaudeHookPayload, HookKind, session_or_unknown, derive_with, derive_event,
}
use pulse_narrator.Hook.Payload.Keys.{synthesized_id_inj}
use pulse_narrator.Hook.Build.{nonempty, stable_kind, event_of, build_event}
use pulse_narrator.Hook.Build.Turns.{Unnamed, distinct_turns_new}
use pulse_narrator.Hook.Dispatch.{write_frame_bounded, send, on_connect, deliver}
use pulse_narrator.Hook.Run.{
  Cli, HookKindArg, to_hook_kind, resolve_timeouts, exit_status, parsed_event, event_for,
  deliver_and_exit, read_payload_stdin, on_payload, after_message, run, main,
}
use pulse_narrator.Hook.Run.Codes.{CodeOf, main-CodeOf}
use pulse_narrator.Hook.Run.Messages.{HasNoBadPayload, main_silent_iff}
use pulse_narrator.Hook.Run.EndToEnd.{
  event_of_run, SentByRun, on_stream, run_success, main_bounded, sent-handled,
}
use pulse_narrator.Examples.Worlds.{os, json, hash, hash-u64, calm, marked}
use pulse_narrator.Examples.Streams.{
  reader, reads_exactly, punctual, completes, socket, bounded, serde, lawful,
}
use pulse_narrator.Examples.Wire.{turn_frame}

-- A payload without a message id, and one with the id "m".
abbrev unnamed : ClaudeHookPayload
unnamed = record { message_id = some "  "; session_id = some "s"; transcript_path = some "" }

abbrev named : ClaudeHookPayload
named = record { message_id = some "m"; session_id = some "s"; transcript_path = some "/t" }

abbrev one_byte : List ℕ
one_byte = 1 ∷ []

abbrev two_bytes : List ℕ
two_bytes = 1 ∷ 2 ∷ []

abbrev from_bytes : List ℕ → Result JsonError ClaudeHookPayload
from_bytes bytes = ok named

-- Durations print in milliseconds here.
abbrev debug : ℕ → String
debug ms = decimal ms <> "ms"

abbrev cli : Cli
cli = record { socket_path = "/s"; hook_kind = HookKindArg.stop; timeout_ms = 0 }

synthesized_id_inj_example :
    (◌≡◌ {A = String} "s" "s")
    × (HookKind.stop ≡ HookKind.stop)
    × (hash (1 ∷ []) ≡ hash (1 ∷ []))
    × (length one_byte ≡ length one_byte)
synthesized_id_inj_example =
    synthesized_id_inj hash hash-u64 "s" "s" HookKind.stop HookKind.stop (1 ∷ []) (1 ∷ []) refl

unnamed-Unnamed : Unnamed os hash "s" unnamed
unfolding is_blank is_whitespace
unnamed-Unnamed = (refl, refl)

longer : length one_byte ≢ length two_bytes
longer h = omega arith

distinct_turns_new_example :
    (record_event os
      (build_event hash unnamed (1 ∷ 2 ∷ []) HookKind.stop)
      (record_event os (build_event hash unnamed (1 ∷ []) HookKind.stop) empty_manager calm).1
      marked).0
    ≡ Session.new
distinct_turns_new_example =
    distinct_turns_new os hash "s" hash-u64 unnamed unnamed (1 ∷ []) (1 ∷ 2 ∷ []) empty_manager calm
      marked unnamed-Unnamed unnamed-Unnamed (inr longer)

run_zero : (run from_bytes hash os socket serde debug cli (ok (1 ∷ [])) marked).0.code ≡ 0
unfolding run on_payload read_payload_stdin after_message deliver_and_exit exit_status deliver
    on_connect send write_frame_bounded resolve_timeouts event_for parsed_event build_event event_of
    new derive_event derive_with is_blank is_whitespace stable_kind to_hook_kind nonempty
    session_or_unknown encode_wire u32_le
run_zero = refl

run_success_example :
    (s : SentByRun from_bytes hash os socket serde cli marked (1 ∷ [])) × (on_stream from_bytes hash
        os socket serde cli marked
        (1 ∷ [])
        s
      ≡ s.frame)
run_success_example =
    run_success from_bytes hash os socket serde cli marked debug bounded (1 ∷ []) run_zero

main_bounded_example :
    (main from_bytes hash os socket serde debug (ok tt) cli (ok (1 ∷ [])) marked).1.now ≤ 7 + 700
main_bounded_example =
    main_bounded from_bytes hash os socket serde cli marked debug bounded (ok tt) (ok (1 ∷ []))

main-CodeOf_example :
    CodeOf from_bytes hash os socket serde cli marked
      (main from_bytes hash os socket serde debug (ok tt) cli (ok (1 ∷ [])) marked).0.code
      (ok tt)
      (ok (1 ∷ []))
main-CodeOf_example =
    main-CodeOf from_bytes hash os socket serde cli marked debug (ok tt) (ok (1 ∷ []))

turn_sent :
    encode_wire serde (event_of_run from_bytes hash os socket serde cli marked (1 ∷ []))
    ≡ ok turn_frame
unfolding event_for parsed_event build_event event_of new derive_event derive_with is_blank
    is_whitespace stable_kind to_hook_kind nonempty session_or_unknown encode_wire u32_le
turn_sent = refl

abbrev sent_turn : SentByRun from_bytes hash os socket serde cli marked (1 ∷ [])
sent_turn = record {
  there = refl;
  stream = [];
  connected = refl;
  frame = turn_frame;
  encoded = turn_sent;
  wrote = refl;
}

sent-handled_example :
    handle_connection os json hash serde reader punctual turn_frame (empty_manager, calm) ≡ (
      ok tt,
      on_event os json hash
          (event_of_run from_bytes hash os socket serde cli marked (1 ∷ []))
          empty_manager
          calm,
    )
sent-handled_example =
    sent-handled from_bytes hash os socket serde cli marked reader punctual json lawful completes
      reads_exactly (1 ∷ []) sent_turn (omega arith) turn_frame _ empty_manager calm refl refl

main_silent_iff_example :
    ((main from_bytes hash os socket serde debug (ok tt) cli (ok (1 ∷ [])) marked).0.messages ≡ [])
    ↔ (((main from_bytes hash os socket serde debug (ok tt) cli (ok (1 ∷ [])) marked).0.code ≡ 0)
        × HasNoBadPayload from_bytes hash os socket serde debug (ok (1 ∷ [])))
main_silent_iff_example =
    main_silent_iff from_bytes hash os socket serde debug (ok tt) cli (ok (1 ∷ [])) marked
