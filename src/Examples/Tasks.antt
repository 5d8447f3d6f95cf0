-- ===== src/Examples/Tasks.antt =====
-- Two deliveries of one turn that are handled at the same time.
use pulse_narrator.Prelude.{List, [], ◌∷◌, none, some, arith, Bool-cases, str_eq, inl, inr}
use pulse_narrator.Prelude.Maps.{lookup}
use pulse_narrator.Core.Event.{SessionId}
use pulse_narrator.Source.Reader.{read_complete}
use pulse_narrator.Daemon.Session.{SessionManager, get}
use pulse_narrator.Daemon.Connection.{receive_frame}
use pulse_narrator.Daemon.Tasks.{recording, Choice, go, accept, outside, Process, run}
use pulse_narrator.Daemon.Session.Same.{IsSame, record_all}
use pulse_narrator.Daemon.Tasks.Order.{trace, run-IsSame}
use pulse_narrator.Daemon.Session.Sound.{IsGood}
use pulse_narrator.Daemon.Tasks.Sound.{IsSoundProcess, run-IsSoundProcess}
use pulse_narrator.Examples.Worlds.{os, json, hash, calm}
use pulse_narrator.Examples.Streams.{reader, punctual, serde}
use pulse_narrator.Examples.Wire.{turn_event, turn_frame}

abbrev pub s : SessionId
s = record { as_str = "s" }

-- A session that has read nine bytes of a transcript that now has three.
abbrev pub before : SessionManager
before = record {
  sessions =
      (
        "s",
        record {
          transcript_path = none;
          last_event_id = some "k";
          receipt_seq = 1;
          last_read_offset = some 9;
        },
      )
      ∷ [];
}

-- Both handlers have their event, and wait for the lock.
abbrev pub both : Process os (receive_frame serde reader punctual) (read_complete os json hash)
both = record { tasks = recording turn_event ∷ recording turn_event ∷ []; shared = (before, calm) }

-- They take turns, while a third connection is accepted and the marker is removed.
abbrev pub schedule :
    List (Choice os (receive_frame serde reader punctual) (read_complete os json hash))
schedule =
    go 0
    ∷ accept turn_frame
    ∷ go 1
    ∷ go 0
    ∷ go 1
    ∷ outside (λ w. (os.remove_file "/m" w).1)
    ∷ go 0
    ∷ go 0
    ∷ go 1
    ∷ go 0
    ∷ go 1
    ∷ go 0
    ∷ []

run-IsSame_example :
    IsSame
      (run os
        (receive_frame serde reader punctual)
        (read_complete os json hash)
        schedule
        both).shared.0
      (record_all
        (trace os (receive_frame serde reader punctual) (read_complete os json hash) schedule both)
        before)
run-IsSame_example =
    run-IsSame os (receive_frame serde reader punctual) (read_complete os json hash) schedule both

before-IsGood : (sid : SessionId) → IsGood (get sid before)
unfolding get lookup
before-IsGood sid = elim (Bool-cases (str_eq "s" sid.as_str)) [
  | inl own ↦ rw own (omega arith, omega arith)
  | inr foreign ↦ rw foreign tt
]

-- The process is sound to begin with.
both-IsSoundProcess :
    IsSoundProcess os (receive_frame serde reader punctual) (read_complete os json hash) both
both-IsSoundProcess = (((tt, tt), before-IsGood), (tt, (tt, tt)))

run-IsSoundProcess_example :
    IsSoundProcess os
      (receive_frame serde reader punctual)
      (read_complete os json hash)
      (run os (receive_frame serde reader punctual) (read_complete os json hash) schedule both)
run-IsSoundProcess_example =
    run-IsSoundProcess os (receive_frame serde reader punctual) (read_complete os json hash)
      schedule both both-IsSoundProcess
