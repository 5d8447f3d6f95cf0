-- ===== src/Examples/Reads.antt =====
-- One turn delivered by two connections: what is read of its transcript.
use pulse_narrator.Prelude.{◌+◌, ◌≡◌}
use pulse_narrator.Source.Reader.{read_complete}
use pulse_narrator.Daemon.Connection.{receive_frame}
use pulse_narrator.Daemon.Tasks.{run}
use pulse_narrator.Daemon.Tasks.Reads.{owed_all, reads_in_run, due_in_run, reads_in_run-due_in_run}
use pulse_narrator.Examples.Worlds.{os, json, hash}
use pulse_narrator.Examples.Streams.{reader, punctual, serde}
use pulse_narrator.Examples.Tasks.{s, both, schedule}

reads_in_run-due_in_run_example :
    reads_in_run os
        (receive_frame serde reader punctual)
        (read_complete os json hash)
        s
        schedule
        both
      + owed_all s
          (run os
            (receive_frame serde reader punctual)
            (read_complete os json hash)
            schedule
            both).tasks
    ≡ owed_all s both.tasks
      + due_in_run os
          (receive_frame serde reader punctual)
          (read_complete os json hash)
          s
          schedule
          both
reads_in_run-due_in_run_example =
    reads_in_run-due_in_run os (receive_frame serde reader punctual) (read_complete os json hash) s
      schedule both
