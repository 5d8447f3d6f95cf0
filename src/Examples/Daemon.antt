-- ===== src/Examples/Daemon.antt =====
-- The daemon, at concrete deliveries.
use pulse_narrator.Prelude.{
  false, ◌≡◌, ◌≢◌, refl, String, List, [], ◌∷◌, Option, none, some, true, eq_iff, arith, str_eq,
  if◌then◌else◌,
}
use pulse_narrator.Prelude.Results.{ok, err}
use pulse_narrator.Prelude.Maps.{lookup}
use pulse_narrator.Source.Settle.{file_size}
use pulse_narrator.Core.Event.{SessionId, TurnId}
use pulse_narrator.Core.Wire.{decode_wire}
use pulse_narrator.Core.Wire.Agreement.{framed}
use pulse_narrator.Daemon.Degraded.{marker_path, mark_degraded, clear_degraded}
use pulse_narrator.Daemon.Session.{new, SessionState, SessionManager, get, receive, record_dedup}
use pulse_narrator.Daemon.Session.Retries.{record_dedup_later}
use pulse_narrator.Daemon.Session.History.{Delivery, deliver_all, alone, get-deliver_all}
use pulse_narrator.Daemon.Connection.{timed_out, receive_frame, on_event, handle_connection}
use pulse_narrator.Daemon.Connection.Refusal.{verdict_on, answer, handle_connection-answer}
use pulse_narrator.Daemon.Connection.Switched.{on_event_shorter}
use pulse_narrator.Daemon.Listener.{owner_read_write, remove_stale, bind_socket}
use pulse_narrator.Daemon.Main.Starting.{cleared, startup_mode}
use pulse_narrator.Daemon.Main.{
  Args, strip_prefix, bare_flag, flag_of, on_last, on_argument, parse_loop, start_args, parse_args,
  secure, ensure_parent_dir, try_clear, startup,
}
use pulse_narrator.Daemon.Main.Arguments.{command_line}
use pulse_narrator.Examples.Worlds.{os, json, hash, binder, keeps_modes, calm, marked}
use pulse_narrator.Examples.Streams.{reader, reads_exactly, punctual, completes, late, serde}
use pulse_narrator.Examples.Wire.{turn_event, turn_frame}

abbrev s : SessionId
s = record { as_str = "s" }

abbrev other_session : SessionId
other_session = record { as_str = "q" }

abbrev m : TurnId
m = record { as_str = "m" }

-- A session that has read nine bytes, after the event "k", and one that has seen "m".
abbrev reader_state : SessionState
reader_state = record {
  transcript_path = none;
  last_event_id = some "k";
  receipt_seq = 1;
  last_read_offset = some 9;
}

abbrev before : SessionManager
before = record { sessions = ("s", reader_state) ∷ [] }

abbrev seen_state : SessionState
seen_state = record {
  transcript_path = none;
  last_event_id = some "m";
  receipt_seq = 2;
  last_read_offset = some 9;
}

abbrev after : SessionManager
after = record { sessions = ("s", seen_state) ∷ [] }

n-ne-m : ◌≢◌ {A = String} "n" "m"
n-ne-m same = ground (arith, eq_iff "n" "m")

record_dedup_later_example :
    let mgr' = (record_dedup s "m" none before).1 in
    (record_dedup s "m" none (record_dedup s "n" none mgr').1).0 ≡ new
record_dedup_later_example = record_dedup_later s "m" "n" none none none before n-ne-m

abbrev deliveries : List Delivery
deliveries =
    record { session_id = s; event_id = "a"; transcript_path = none }
    ∷ record { session_id = other_session; event_id = "b"; transcript_path = none }
    ∷ record { session_id = s; event_id = "a"; transcript_path = some "/t" }
    ∷ []

get-deliver_all_example :
    get s (deliver_all deliveries before) ≡ alone "s" deliveries (get s before)
get-deliver_all_example = get-deliver_all s deliveries before

handle_connection-answer_example :
    let judged = verdict_on (framed (decode_wire serde turn_frame)) in
    handle_connection os json hash serde reader punctual turn_frame (before, calm) ≡ (
      answer judged,
      elim judged [ ok event ↦ on_event os json hash event before calm | err e ↦ (before, calm) ],
    )
handle_connection-answer_example =
    handle_connection-answer serde reader punctual os json hash completes reads_exactly turn_frame _
      before calm refl

-- A peer that is late.
too_late :
    (handle_connection os json hash serde reader late turn_frame (before, calm)).0 ≡ err timed_out
unfolding handle_connection receive_frame
too_late = refl

t-ne-empty : ◌≢◌ {A = String} "/t" ""
t-ne-empty same = ground (arith, eq_iff "/t" "")

after_known : get s after ≡ some seen_state
unfolding get lookup
after_known = refl

abbrev some_args : Args
some_args = record { socket_path = "/a"; once = true }

starts : (startup os binder (command_line some_args) marked).0 ≡ ok (some_args, tt)
unfolding startup ensure_parent_dir secure try_clear bind_socket remove_stale clear_degraded
    marker_path parse_args parse_loop on_argument on_last flag_of bare_flag strip_prefix start_args
starts = refl

-- A command line, and one that is written behind it.
abbrev any_args : Args
any_args = record { socket_path = "/d"; once = false }

abbrev later_flags : List String
later_flags = "--socket-path" ∷ "/b" ∷ []

startup_mode_example :
    (parse_args (some "/home") (command_line some_args) ≡ ok some_args)
    × ((bind_socket os binder "/a" (cleared os binder "/a" marked)).0 ≡ ok tt)
    × (binder.mode_at "/a" (startup os binder (command_line some_args) marked).1
        ≡ some owner_read_write)
startup_mode_example =
    startup_mode os binder keeps_modes (command_line some_args) marked some_args tt starts

-- A session that has read nine bytes of another transcript than the one of its next turn.
abbrev moved_state : SessionState
moved_state = record {
  transcript_path = some "/old";
  last_event_id = some "k";
  receipt_seq = 1;
  last_read_offset = some 9;
}

abbrev moved : SessionManager
moved = record { sessions = ("s", moved_state) ∷ [] }

moved_known : get s moved ≡ some moved_state
unfolding get lookup
moved_known = refl

k-ne-m : ◌≢◌ {A = Option String} (some "k") (some "m")
k-ne-m same = ground (arith, eq_iff "k" "m")

some_path : ◌≢◌ {A = String} "/t" ""
some_path same = ground (arith, eq_iff "/t" "")

three_bytes : file_size os "/t" calm ≡ ok 3
unfolding file_size
three_bytes = refl

on_event_shorter_example :
    ((on_event os json hash turn_event moved calm).1
      ≡ (mark_degraded os "truncated transcript (size regression)" calm).1)
    × ((id : SessionId)
        → get id (on_event os json hash turn_event moved calm).0 ≡ (
            if str_eq "s" id.as_str
            then some (record (receive "m" (some "/t") moved_state) { last_read_offset = some 3 })
            else get id moved))
on_event_shorter_example =
    on_event_shorter os json hash turn_event moved calm s m "/t" moved_state 9 3 refl some_path
      moved_known k-ne-m refl three_bytes (omega arith)
