-- ===== src/Daemon/Serve/Exit.antt =====
-- How the daemon ends.
use pulse_narrator.Prelude.{
  ℕ, String, ◌≡◌, ◌⊎◌, refl, List, [], ◌∷◌, Bool, true, false, Option, inl, inr,
}
use pulse_narrator.Prelude.Results.{Result, ok, err, Result-cases}
use pulse_narrator.System.{Os, IoError}
use pulse_narrator.Core.Source.{ProbeOutcome, TurnRead}
use pulse_narrator.Core.Wire.{WireEvent}
use pulse_narrator.Source.Error.{SourceError}
use pulse_narrator.Daemon.Error.{DaemonError}
use pulse_narrator.Daemon.Session.{empty_manager}
use pulse_narrator.Daemon.Listener.{Binder}
use pulse_narrator.Daemon.Main.{Args, Wake, accepted, accept_failed, signal, on_wake, startup}
use pulse_narrator.Daemon.Tasks.{go, accept, outside, Process, advance, run}
use pulse_narrator.Daemon.Serve.{
  Moment, polled, ran, changed, spawn, poll, serve_turn, serve, Main, ended, serves, leave,
  main_from, daemon,
}
use pulse_narrator.Daemon.Serve.Spawning.{wakes_of, choices_of, serve-choices_of}

-- Whether the accept loop returns: a resident one at a signal, with `--once` at anything.
abbrev pub stops : {Stream : Type 0} → Bool → List (Wake Stream) → Bool
stops once [] = false
stops true (wake ∷ wakes) = true
stops false (accepted stream ∷ wakes) = stops false wakes
stops false (accept_failed ∷ wakes) = stops false wakes
stops false (signal result ∷ wakes) = true

module _ (os : Os) {Stream : Type 0} (take_frame : Stream → Result DaemonError WireEvent)
    (read : String
      → Option ℕ
      → os.World
      → Result SourceError (ProbeOutcome × TurnRead) × os.World) where
  open os use {World, remove_file, exists}

  stays_stopped :
      (once : Bool) (turns : List (Moment os take_frame read)) (p : Process os take_frame read)
      → (serve os take_frame read once turns (record { process = p; stopped = true })).stopped
        ≡ true
  unfolding serve serve_turn poll
  stays_stopped once [] p = refl
  stays_stopped once (polled wake ∷ turns) p = stays_stopped once turns p
  stays_stopped once (ran i ∷ turns) p =
      stays_stopped once turns (advance os take_frame read (go i) p)
  stays_stopped once (changed change ∷ turns) p =
      stays_stopped once turns (advance os take_frame read (outside change) p)

  serve-stops :
      (once : Bool) (turns : List (Moment os take_frame read)) (p : Process os take_frame read)
      → (serve os take_frame read once turns (record { process = p; stopped = false })).stopped
        ≡ stops once (wakes_of os take_frame read turns)
  unfolding serve serve_turn poll on_wake spawn
  serve-stops once [] p = refl
  serve-stops true (polled (accepted stream) ∷ turns) p =
      stays_stopped true turns (advance os take_frame read (accept stream) p)
  serve-stops false (polled (accepted stream) ∷ turns) p =
      serve-stops false turns (advance os take_frame read (accept stream) p)
  serve-stops true (polled accept_failed ∷ turns) p = stays_stopped true turns p
  serve-stops false (polled accept_failed ∷ turns) p = serve-stops false turns p
  serve-stops true (polled (signal result) ∷ turns) p = stays_stopped true turns p
  serve-stops false (polled (signal result) ∷ turns) p = stays_stopped false turns p
  serve-stops once (ran i ∷ turns) p = serve-stops once turns (advance os take_frame read (go i) p)
  serve-stops once (changed change ∷ turns) p =
      serve-stops once turns (advance os take_frame read (outside change) p)

  -- The process that serves, from the world after the startup.
  abbrev pub served : Bool → List (Moment os take_frame read) → World → Process os take_frame read
  served once turns w =
      run os take_frame read (choices_of os take_frame read once turns)
        (record { tasks = []; shared = (empty_manager, w) })

  -- What `main` comes to after a startup that succeeded.
  abbrev pub outcome : Args → List (Moment os take_frame read) → World → Main os take_frame read
  outcome args turns w =
      let p = served args.once turns w in
      elim (stops args.once (wakes_of os take_frame read turns)) [
        | true ↦ ended (ok tt) (remove_file args.socket_path p.shared.1).1
        | false ↦ serves p
      ]

  leave-outcome :
      (path : String) (stopped : Bool) (p : Process os take_frame read)
      → leave os take_frame read path stopped p
        ≡ elim stopped [ true ↦ ended (ok tt) (remove_file path p.shared.1).1 | false ↦ serves p ]
  unfolding leave
  leave-outcome path true p = refl
  leave-outcome path false p = refl

  module _ (binder : Binder os) where
    -- `main` ends with an error just when the startup does, with that error and in that world. Else
    -- it serves, with no session known at first, until the accept loop returns: at the end of
    -- `wait_for_signal`, even one that failed, or with `--once` after the first connection or failed
    -- accept. Then it removes the socket file, in whatever state the handlers are, and ends well.
    pub daemon-cases :
        (arguments : List String) (turns : List (Moment os take_frame read)) (w : World)
        → let (started, w') = startup os binder arguments w in
          ((e : IoError) × (started ≡ err e)
            × (daemon os take_frame read binder arguments turns w ≡ ended (err e) w'))
          ⊎ ((args : Args) × (l : binder.Listener) × (started ≡ ok (args, l))
              × (daemon os take_frame read binder arguments turns w ≡ outcome args turns w'))
    unfolding daemon main_from leave
    daemon-cases arguments turns w = elim (Result-cases (startup os binder arguments w).0) [
      | inr (e, failed) ↦ inl (e, failed, rw (daemon, main_from, failed) refl)
      | inl ((args, l), good) ↦
          let w' : World = (startup os binder arguments w).1 in
          let p : Process os take_frame read = record {
            tasks = [];
            shared = (empty_manager, w');
          } in
          inr (
            args,
            l,
            good,
            rw
                (
                  daemon,
                  main_from,
                  good,
                  serve-stops args.once turns p,
                  serve-choices_of os take_frame read args.once turns p,
                )
                (leave-outcome args.socket_path
                  (stops args.once (wakes_of os take_frame read turns))
                  (served args.once turns w')),
          )
    ]

    pub daemon-outcome :
        (arguments : List String) (turns : List (Moment os take_frame read)) (w : World)
        (args : Args) (l : binder.Listener)
        → (startup os binder arguments w).0 ≡ ok (args, l)
        → daemon os take_frame read binder arguments turns w
          ≡ outcome args turns (startup os binder arguments w).1
    daemon-outcome arguments turns w args l good = elim (daemon-cases arguments turns w) [
      | inl (e, failed, _) ↦ absurd (cc (good, failed))
      | inr (args', l', good', goes_on) ↦
          let same : args' ≡ args = cc (good, good') in rw same at goes_on
    ]
