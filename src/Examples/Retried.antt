-- ===== src/Examples/Retried.antt =====
-- A turn without a message id, delivered twice.
use pulse_narrator.Prelude.{◌≤◌, ◌≡◌, refl, String, List, [], ◌∷◌, some, arith}
use pulse_narrator.Prelude.Results.{ok}
use pulse_narrator.Prelude.Format.{is_blank, is_whitespace}
use pulse_narrator.Prelude.Words.{u32_le}
use pulse_narrator.Core.Wire.{encode_wire}
use pulse_narrator.Daemon.Session.{empty_manager}
use pulse_narrator.Hook.Payload.{ClaudeHookPayload, HookKind}
use pulse_narrator.Hook.Build.{nonempty}
use pulse_narrator.Hook.Build.Turns.{Unnamed}
use pulse_narrator.Examples.Worlds.{os, json, hash, calm}
use pulse_narrator.Examples.Streams.{reader, reads_exactly, punctual, completes}
use pulse_narrator.Examples.Wire.{turn_frame}
use pulse_narrator.Prelude.{eq_refl, inl, none}
use pulse_narrator.Source.Reader.{read_complete}
use pulse_narrator.Daemon.Connection.{receive_frame}
use pulse_narrator.Daemon.Tasks.{Choice, go, accept}
use pulse_narrator.Daemon.Tasks.Reads.{reads_in_run}
use pulse_narrator.Hook.Payload.{synthesized_id}
use pulse_narrator.Hook.Build.Turns.{build_event_stop, build_event_version}
use pulse_narrator.Prelude.{false, ◌≡◌, some}
use pulse_narrator.Prelude.Maps.{lookup, insert}
use pulse_narrator.Prelude.Words.{get_u32_le}
use pulse_narrator.Core.Wire.Stream.{read_frame}
use pulse_narrator.Source.Settle.{file_size}
use pulse_narrator.Source.Reader.{truncated_read}
use pulse_narrator.Daemon.Session.{
  SessionManager, get, is_last, newer, receive, entry_or_default, record_dedup, record_event,
  set_last_read_offset,
}
use pulse_narrator.Daemon.Session.Dedup.{repeats}
use pulse_narrator.Daemon.Connection.{check_version, last_read_offset_of}
use pulse_narrator.Daemon.Tasks.{
  gated, received, recorded, fetched, answered, step, step_at, advance, run,
}
use pulse_narrator.Daemon.Tasks.Reads.{readable}
use pulse_narrator.Daemon.Tasks.Done.{AllDone}
use pulse_narrator.Hook.Build.{nonempty}
use pulse_narrator.Hook.Run.Delivered.{hooked_turn_read_once}
use pulse_narrator.Hook.Run.Retried.{session, the_event, Retries, retried_turn_read_once}
use pulse_narrator.Examples.Streams.{serde_for, serde_for-IsLawful}

abbrev payload : ClaudeHookPayload
payload = record { message_id = none; session_id = some "s"; transcript_path = some "/t" }

abbrev turn_id : String
turn_id = synthesized_id hash "s" HookKind.stop (1 ∷ [])

payload-Unnamed : Unnamed os hash "s" payload
unfolding is_blank is_whitespace
payload-Unnamed = (refl, refl)

encoded : encode_wire (serde_for turn_id) (the_event hash payload (1 ∷ [])) ≡ ok turn_frame
unfolding encode_wire u32_le nonempty
encoded =
    rw (build_event_stop hash payload (1 ∷ []) "s" payload-Unnamed.0 payload-Unnamed.1)
      (rw (eq_refl turn_id, build_event_version hash payload (1 ∷ []) HookKind.stop) refl)

retried :
    Retries os hash
      (serde_for turn_id)
      reader
      punctual
      (read_complete os json hash)
      payload
      (1 ∷ [])
      "s"
      turn_frame
retried = (turn_frame, encoded, omega arith, refl)

abbrev choices :
    List
      (Choice os (receive_frame (serde_for turn_id) reader punctual) (read_complete os json hash))
choices =
    accept turn_frame
    ∷ accept turn_frame
    ∷ go 0
    ∷ go 1
    ∷ go 1
    ∷ go 0
    ∷ go 0
    ∷ go 1
    ∷ go 0
    ∷ go 1
    ∷ go 1
    ∷ go 0
    ∷ []

retried_turn_read_once_example :
    reads_in_run os
      (receive_frame (serde_for turn_id) reader punctual)
      (read_complete os json hash)
      (record { as_str = "s" })
      choices
      (record { tasks = []; shared = (empty_manager, calm) })
    ≤ 1
retried_turn_read_once_example =
    retried_turn_read_once os hash (serde_for turn_id) reader punctual (read_complete os json hash)
      payload (1 ∷ []) "s" (serde_for-IsLawful turn_id) completes reads_exactly payload-Unnamed
      choices (empty_manager, calm) (inl retried, (inl retried, tt))

-- A session that has read nine bytes of a transcript that now has three.
abbrev cut_session : SessionManager
cut_session = record {
  sessions =
      (
        "s",
        record {
          transcript_path = none;
          last_event_id = none;
          receipt_seq = 0;
          last_read_offset = some 9;
        },
      )
      ∷ [];
}

abbrev to_the_end :
    List
      (Choice os (receive_frame (serde_for turn_id) reader punctual) (read_complete os json hash))
to_the_end = accept turn_frame ∷ go 0 ∷ go 0 ∷ go 0 ∷ go 0 ∷ go 0 ∷ go 0 ∷ []

has_path : readable (nonempty payload.transcript_path) ≡ 1
unfolding nonempty
has_path = refl

not_seen : repeats (session "s") turn_id cut_session ≡ false
unfolding get lookup is_last
not_seen = refl

all_done :
    AllDone
      (run os
        (receive_frame (serde_for turn_id) reader punctual)
        (read_complete os json hash)
        to_the_end
        (record { tasks = []; shared = (cut_session, calm) })).tasks
unfolding receive_frame read_frame get_u32_le received gated check_version run advance step step_at
    record_event record_dedup entry_or_default get lookup insert is_last receive newer recorded
    fetched answered read_complete truncated_read file_size last_read_offset_of set_last_read_offset
all_done = tt

hooked_turn_read_once_example :
    reads_in_run os
      (receive_frame (serde_for turn_id) reader punctual)
      (read_complete os json hash)
      (session "s")
      to_the_end
      (record { tasks = []; shared = (cut_session, calm) })
    ≡ 1
hooked_turn_read_once_example =
    hooked_turn_read_once os hash (serde_for turn_id) reader punctual (read_complete os json hash)
      payload (1 ∷ []) "s" (serde_for-IsLawful turn_id) completes reads_exactly payload-Unnamed
      has_path to_the_end (cut_session, calm) (inl retried, tt) (inl (retried, (_, refl))) not_seen
      all_done
