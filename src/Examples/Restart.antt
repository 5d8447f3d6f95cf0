-- ===== src/Examples/Restart.antt =====
-- A daemon that starts with the marker of an earlier run, and is told of a degraded hook.
use pulse_narrator.Prelude.{◌≤◌, ◌≡◌, ◌↔◌, refl, false, List, [], ◌∷◌}
use pulse_narrator.Prelude.Results.{ok}
use pulse_narrator.Prelude.Words.{get_u32_le}
use pulse_narrator.Core.Wire.Stream.{read_frame}
use pulse_narrator.Source.Reader.{read_complete}
use pulse_narrator.Daemon.Degraded.{marker_path, clear_degraded}
use pulse_narrator.Daemon.Session.{empty_manager, record_event}
use pulse_narrator.Daemon.Connection.{receive_frame, check_version}
use pulse_narrator.Daemon.Connection.Marked.{IsMarked}
use pulse_narrator.Daemon.Main.{accepted, signal, on_wake, secure, ensure_parent_dir, startup}
use pulse_narrator.Daemon.Main.Starting.{secured}
use pulse_narrator.Daemon.Main.Arguments.{command_line}
use pulse_narrator.Daemon.Tasks.{gated, received, recorded, step, step_at, advance, run}
use pulse_narrator.Daemon.Tasks.Complaints.{made_in_run, LeaveMarker}
use pulse_narrator.Daemon.Tasks.Silent.{MakeNoMarker}
use pulse_narrator.Daemon.Tasks.Done.{AllDone}
use pulse_narrator.Daemon.Serve.{Moment, polled, ran, daemon}
use pulse_narrator.Daemon.Serve.Spawning.{choices_of}
use pulse_narrator.Daemon.Serve.Exit.{served, outcome}
use pulse_narrator.Daemon.Serve.Restart.{WritesNoText, daemon-IsMarked_iff}
use pulse_narrator.Examples.Worlds.{os, files, json, hash, binder, marked}
use pulse_narrator.Examples.Streams.{reader, punctual, serde}
use pulse_narrator.Examples.Serve.{some_args, starts}
use pulse_narrator.Examples.Marked.{marker, has_home, writable, leaves, keeps_clean, lost_frame}

no_text : WritesNoText os binder marker
no_text = record { removes = λ p w h. refl; sets_mode = λ p mode w h. h; binds = λ p w h. h }

abbrev moments : List (Moment os (receive_frame serde reader punctual) (read_complete os json hash))
moments = polled (accepted lost_frame) ∷ ran 0 ∷ ran 0 ∷ polled (signal (ok tt)) ∷ []

clears : (clear_degraded os (secured os binder "/a" marked)).0 ≡ ok tt
unfolding clear_degraded marker_path ensure_parent_dir secure
clears = refl

left_alone :
    LeaveMarker os (receive_frame serde reader punctual) (read_complete os json hash) marker (
      choices_of os
        (receive_frame serde reader punctual)
        (read_complete os json hash)
        false
        moments)
unfolding on_wake
left_alone = tt

not_made :
    MakeNoMarker os
      (receive_frame serde reader punctual)
      (read_complete os json hash)
      marker
      keeps_clean
      (choices_of os
        (receive_frame serde reader punctual)
        (read_complete os json hash)
        false
        moments)
unfolding on_wake
not_made = tt

done :
    AllDone
      (served os
        (receive_frame serde reader punctual)
        (read_complete os json hash)
        false
        moments
        (startup os binder (command_line some_args) marked).1).tasks
unfolding on_wake receive_frame read_frame get_u32_le received gated check_version run advance step
    step_at record_event recorded
done = tt

daemon-IsMarked_iff_example :
    (daemon os
        (receive_frame serde reader punctual)
        (read_complete os json hash)
        binder
        (command_line some_args)
        moments
        marked
      ≡ outcome os
          (receive_frame serde reader punctual)
          (read_complete os json hash)
          some_args
          moments
          (startup os binder (command_line some_args) marked).1)
    × (IsMarked os marker
          (served os
            (receive_frame serde reader punctual)
            (read_complete os json hash)
            false
            moments
            (startup os binder (command_line some_args) marked).1).shared.1
        ↔ (1
            ≤ made_in_run os
                (receive_frame serde reader punctual)
                (read_complete os json hash)
                (choices_of os
                  (receive_frame serde reader punctual)
                  (read_complete os json hash)
                  false
                  moments)
                (record {
                  tasks = [];
                  shared = (empty_manager, (startup os binder (command_line some_args) marked).1);
                })))
daemon-IsMarked_iff_example =
    daemon-IsMarked_iff os (receive_frame serde reader punctual) (read_complete os json hash) binder
      marker keeps_clean no_text files has_home writable leaves (command_line some_args) moments
      marked some_args tt starts clears left_alone not_made done
