-- ===== src/Examples/Marked.antt =====
-- Complaints that end in the marker file: a transcript that was cut, and an empty payload.
use pulse_narrator.Prelude.{
  ℕ, ◌≤◌, ◌≡◌, ◌↔◌, String, List, [], ◌∷◌, Option, none, some, str_eq, eq_iff, if◌then◌else◌, refl,
  arith, inl,
}
use pulse_narrator.Prelude.Results.{Result, ok, err}
use pulse_narrator.Prelude.Maps.{lookup, insert}
use pulse_narrator.Prelude.Paths.{push}
use pulse_narrator.Prelude.Words.{u32_le, get_u32_le}
use pulse_narrator.Core.Wire.{
  WireEvent, WireEventKind, turn_complete, attention_hint, hook_degraded, new, JsonError, Serde,
  IsLawful, encode_wire,
}
use pulse_narrator.Core.Wire.Stream.{read_frame}
use pulse_narrator.Source.Settle.{file_size}
use pulse_narrator.Source.Reader.{truncated_read, read_complete}
use pulse_narrator.Source.Reader.ReadOnly.{read_complete-keeps}
use pulse_narrator.Daemon.Degraded.{marker_path, make_parent, mark_degraded}
use pulse_narrator.Daemon.Session.{
  empty_manager, get, is_last, newer, receive, entry_or_default, record_dedup, record_event,
  set_last_read_offset,
}
use pulse_narrator.Daemon.Connection.{receive_frame, check_version, last_read_offset_of}
use pulse_narrator.Daemon.Connection.Marked.{IsMarked}
use pulse_narrator.Daemon.Tasks.{
  gated, received, recorded, fetched, answered, step, step_at, Choice, go, accept, Process, advance,
  run,
}
use pulse_narrator.Daemon.Tasks.Complaints.{made_in_run}
use pulse_narrator.Daemon.Tasks.Done.{AllDone}
use pulse_narrator.Daemon.Tasks.Silent.{run-IsMarked_iff}
use pulse_narrator.Hook.Payload.{ClaudeHookPayload, HookKind, synthesize, derive_with, derive_event}
use pulse_narrator.Hook.Build.{nonempty, to_session, event_of, build_event}
use pulse_narrator.Hook.Run.{event_for}
use pulse_narrator.Hook.Run.Reported.{ArrivesInTime, lost_payload-IsMarked}
use pulse_narrator.Examples.Worlds.{SmallWorld, os, files, json, hash, calm}
use pulse_narrator.Examples.Streams.{reader, reads_exactly, punctual, completes, serde, no_json}
use pulse_narrator.Examples.Tasks.{before}
use pulse_narrator.Examples.Wire.{turn_frame}

abbrev pub marker : String
marker = "/home/Library/Application Support/PulseVoice/DEGRADED"

pub has_home : (w : SmallWorld) → marker_path os w ≡ ok marker
unfolding marker_path push
has_home w = refl

pub writable : (reason : String) (w : SmallWorld) → (mark_degraded os reason w).0 ≡ ok tt
unfolding mark_degraded marker_path make_parent
writable reason w = refl

pub leaves :
    (path : String) (last : Option ℕ) (w : SmallWorld)
    → IsMarked os marker w
    → IsMarked os marker (read_complete os json hash path last w).1
leaves path last w h =
    read_complete-keeps os path json hash {P = IsMarked os marker} (λ d v there. there)
      (λ v there. there) last w h

pub keeps_clean :
    (path : String) (last : Option ℕ) (w : SmallWorld)
    → w.marker ≡ none
    → (read_complete os json hash path last w).1.marker ≡ none
keeps_clean path last w h =
    read_complete-keeps os path json hash {P = λ w. w.marker ≡ none} (λ d v there. there)
      (λ v there. there) last w h

-- The first handler finds the transcript cut, the second one a repeat.
abbrev to_the_end :
    List (Choice os (receive_frame serde reader punctual) (read_complete os json hash))
to_the_end =
    accept turn_frame
    ∷ accept turn_frame
    ∷ go 0
    ∷ go 0
    ∷ go 1
    ∷ go 1
    ∷ go 0
    ∷ go 0
    ∷ go 0
    ∷ go 0
    ∷ []

all_done :
    AllDone
      (run os
        (receive_frame serde reader punctual)
        (read_complete os json hash)
        to_the_end
        (record { tasks = []; shared = (before, calm) })).tasks
unfolding receive_frame read_frame get_u32_le received gated check_version run advance step step_at
    record_event record_dedup entry_or_default get lookup insert is_last receive newer recorded
    fetched answered read_complete truncated_read file_size last_read_offset_of set_last_read_offset
all_done = tt

run-IsMarked_iff_example :
    IsMarked os marker
      (run os
        (receive_frame serde reader punctual)
        (read_complete os json hash)
        to_the_end
        (record { tasks = []; shared = (before, calm) })).shared.1
    ↔ (1
        ≤ made_in_run os
            (receive_frame serde reader punctual)
            (read_complete os json hash)
            to_the_end
            (record { tasks = []; shared = (before, calm) }))
run-IsMarked_iff_example =
    run-IsMarked_iff os (receive_frame serde reader punctual) (read_complete os json hash) marker
      keeps_clean files has_home writable leaves to_the_end before calm tt tt refl all_done

-- A serializer that knows one event of a degraded hook.
abbrev no_session : String
no_session = "no session_id in payload"

abbrev write_lost : ℕ → WireEventKind → Result JsonError (List ℕ)
write_lost version (turn_complete sid tid path) = err no_json
write_lost version (attention_hint sid event_id raw_kind path) = err no_json
write_lost version (hook_degraded reason none) =
    if str_eq reason no_session then ok (version ∷ []) else err no_json
write_lost version (hook_degraded reason (some sid)) = err no_json

abbrev read_lost : List ℕ → Result JsonError WireEvent
read_lost [] = err no_json
read_lost (version ∷ bytes) =
    ok (record { schema_version = version; kind = hook_degraded no_session none })

abbrev serde_lost : Serde
serde_lost = record {
  to_vec = λ event. write_lost event.schema_version event.kind;
  from_slice = read_lost;
}

lost_kind :
    (version : ℕ) (kind : WireEventKind) (body : List ℕ)
    → write_lost version kind ≡ ok body
    → read_lost body ≡ ok (record { schema_version = version; kind = kind })
lost_kind version (turn_complete sid tid path) body h = absurd (cc h)
lost_kind version (attention_hint sid event_id raw_kind path) body h = absurd (cc h)
lost_kind version (hook_degraded reason none) body h = ground (arith, eq_iff reason no_session)
lost_kind version (hook_degraded reason (some sid)) body h = absurd (cc h)

serde_lost-IsLawful : IsLawful serde_lost
serde_lost-IsLawful = record {
  from_slice-to_vec = λ event body h. lost_kind event.schema_version event.kind body h;
}

-- No payload parses here; this one is empty anyway.
abbrev none_parses : List ℕ → Result JsonError ClaudeHookPayload
none_parses bytes = err no_json

abbrev pub lost_frame : List ℕ
lost_frame = 1 ∷ 0 ∷ 0 ∷ 0 ∷ 1 ∷ []

abbrev report :
    List (Choice os (receive_frame serde_lost reader punctual) (read_complete os json hash))
report = accept lost_frame ∷ go 0 ∷ go 0 ∷ []

abbrev at_rest : Process os (receive_frame serde_lost reader punctual) (read_complete os json hash)
at_rest = record { tasks = []; shared = (empty_manager, calm) }

arrives :
    ArrivesInTime none_parses os hash serde_lost reader punctual
      (read_complete os json hash)
      []
      HookKind.stop
      lost_frame
unfolding event_for build_event event_of new derive_event derive_with synthesize nonempty to_session
    encode_wire u32_le
arrives = (lost_frame, refl, omega arith, refl, (_, refl))

reported :
    AllDone
      (run os
        (receive_frame serde_lost reader punctual)
        (read_complete os json hash)
        report
        at_rest).tasks
unfolding receive_frame read_frame get_u32_le received gated check_version run advance step step_at
    record_event recorded
reported = tt

lost_payload-IsMarked_example :
    IsMarked os marker
      (run os
        (receive_frame serde_lost reader punctual)
        (read_complete os json hash)
        report
        at_rest).shared.1
lost_payload-IsMarked_example =
    lost_payload-IsMarked none_parses os hash serde_lost reader punctual
      (read_complete os json hash) [] HookKind.stop (inl refl) serde_lost-IsLawful completes
      reads_exactly marker files has_home writable leaves report at_rest tt (inl arrives) reported
