-- ===== src/Examples/Serve.antt =====
-- The daemon as a whole, from its arguments to its exit.
use pulse_narrator.Prelude.{◌≡◌, ◌⊎◌, refl, false, List, [], ◌∷◌}
use pulse_narrator.Prelude.Results.{ok, err}
use pulse_narrator.Source.Reader.{read_complete}
use pulse_narrator.Daemon.Connection.{receive_frame}
use pulse_narrator.Daemon.Tasks.{run}
use pulse_narrator.Daemon.Degraded.{marker_path, clear_degraded}
use pulse_narrator.Daemon.Listener.{remove_stale, bind_socket}
use pulse_narrator.Daemon.Main.{
  Args, strip_prefix, bare_flag, flag_of, on_last, on_argument, parse_loop, start_args, parse_args,
  secure, ensure_parent_dir, try_clear, startup, accepted, accept_failed, signal, run_accept_loop,
}
use pulse_narrator.Daemon.Main.Arguments.{command_line}
use pulse_narrator.Daemon.Serve.{Moment, polled, ran, changed, serve, ended, daemon}
use pulse_narrator.Daemon.Serve.Spawning.{wakes_of, accepts, choices_of, serve-run_accept_loop}
use pulse_narrator.Daemon.Serve.Exit.{outcome, daemon-cases}
use pulse_narrator.System.{IoError}
use pulse_narrator.Examples.Tasks.{both}
use pulse_narrator.Examples.Worlds.{os, json, hash, binder, marked}
use pulse_narrator.Examples.Streams.{reader, punctual, serde}
use pulse_narrator.Examples.Wire.{turn_frame}

-- A daemon that accepts a turn, handles some of it, and gets a signal.
abbrev moments : List (Moment os (receive_frame serde reader punctual) (read_complete os json hash))
moments =
    polled (accepted turn_frame)
    ∷ ran 0
    ∷ polled accept_failed
    ∷ ran 0
    ∷ changed (λ w. w)
    ∷ polled (signal (ok tt))
    ∷ ran 0
    ∷ polled (accepted turn_frame)
    ∷ []

serve-run_accept_loop_example :
    (accepts os (receive_frame serde reader punctual) (read_complete os json hash) (
        choices_of os
          (receive_frame serde reader punctual)
          (read_complete os json hash)
          false
          moments)
      ≡ (run_accept_loop false (
          wakes_of os
            (receive_frame serde reader punctual)
            (read_complete os json hash)
            moments)).0)
    × ((serve os
          (receive_frame serde reader punctual)
          (read_complete os json hash)
          false
          moments
          (record { process = both; stopped = false })).process
        ≡ run os
            (receive_frame serde reader punctual)
            (read_complete os json hash)
            (choices_of os
              (receive_frame serde reader punctual)
              (read_complete os json hash)
              false
              moments)
            both)
serve-run_accept_loop_example =
    serve-run_accept_loop os (receive_frame serde reader punctual) (read_complete os json hash)
      false moments both

abbrev pub some_args : Args
some_args = record { socket_path = "/a"; once = false }

daemon-cases_example :
    let (started, w') = startup os binder (command_line some_args) marked in
    ((e : IoError) × (started ≡ err e)
      × (daemon os
            (receive_frame serde reader punctual)
            (read_complete os json hash)
            binder
            (command_line some_args)
            moments
            marked
          ≡ ended (err e) w'))
    ⊎ ((args : Args) × (l : binder.Listener) × (started ≡ ok (args, l))
        × (daemon os
              (receive_frame serde reader punctual)
              (read_complete os json hash)
              binder
              (command_line some_args)
              moments
              marked
            ≡ outcome os
                (receive_frame serde reader punctual)
                (read_complete os json hash)
                args
                moments
                w'))
daemon-cases_example =
    daemon-cases os (receive_frame serde reader punctual) (read_complete os json hash) binder
      (command_line some_args) moments marked

pub starts : (startup os binder (command_line some_args) marked).0 ≡ ok (some_args, tt)
unfolding startup ensure_parent_dir secure try_clear bind_socket remove_stale clear_degraded
    marker_path parse_args parse_loop on_argument on_last flag_of bare_flag strip_prefix start_args
starts = refl
