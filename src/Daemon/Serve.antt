-- ===== src/Daemon/Serve.antt =====
-- crates/pulse-daemon/src/main.rs: `main` as a whole, its accept loop running beside the handlers
-- that it spawned.
pub mod Spawning
pub mod Exit
pub mod Restart
use pulse_narrator.Prelude.{ℕ, String, List, [], ◌∷◌, Bool, true, false, Option, none, some}
use pulse_narrator.Prelude.Results.{Result, ok, err}
use pulse_narrator.System.{Os, IoError}
use pulse_narrator.Core.Source.{ProbeOutcome, TurnRead}
use pulse_narrator.Core.Wire.{WireEvent}
use pulse_narrator.Source.Error.{SourceError}
use pulse_narrator.Daemon.Error.{DaemonError}
use pulse_narrator.Daemon.Session.{empty_manager}
use pulse_narrator.Daemon.Listener.{Binder}
use pulse_narrator.Daemon.Main.{Args, Wake, on_wake, startup}
use pulse_narrator.Daemon.Tasks.{Choice, go, accept, outside, Process, advance}

module _ (os : Os) {Stream : Type 0} (take_frame : Stream → Result DaemonError WireEvent)
    (read : String
      → Option ℕ
      → os.World
      → Result SourceError (ProbeOutcome × TurnRead) × os.World) where
  open os use {World, remove_file}

  -- What happens next: a turn of the accept loop, a step of a handler, or a change from outside.
  pub data Moment : Type 0 where
    polled : Wake Stream → Moment
    ran : ℕ → Moment
    changed : (World → World) → Moment

  -- The handlers, and whether the accept loop has returned.
  pub record Serving : Type 0 where
    pub process : Process os take_frame read
    pub stopped : Bool

  -- `tokio::spawn`
  unfoldable pub spawn : Option Stream → Process os take_frame read → Process os take_frame read
  spawn none p = p
  spawn (some stream) p = advance os take_frame read (accept stream) p

  -- A loop that has returned polls no more.
  unfoldable pub poll : Bool → Bool → Wake Stream → Process os take_frame read → Serving
  poll true once wake p = record { process = p; stopped = true }
  poll false once wake p =
      let (stream, stop) = on_wake once wake in record { process = spawn stream p; stopped = stop }

  unfoldable pub serve_turn : Bool → Moment → Serving → Serving
  serve_turn once (polled wake) s = poll s.stopped once wake s.process
  serve_turn once (ran i) s = record {
    process = advance os take_frame read (go i) s.process;
    stopped = s.stopped;
  }
  serve_turn once (changed change) s = record {
    process = advance os take_frame read (outside change) s.process;
    stopped = s.stopped;
  }

  unfoldable pub serve : Bool → List Moment → Serving → Serving
  serve once [] s = s
  serve once (turn ∷ turns) s = serve once turns (serve_turn once turn s)

  -- `main` has returned, or still serves.
  pub data Main : Type 0 where
    ended : Result IoError (Unit {0}) → World → Main
    serves : Process os take_frame read → Main

  -- The sessions are empty when the accept loop begins.
  abbrev pub start : World → Serving
  start w = record { process = record { tasks = []; shared = (empty_manager, w) }; stopped = false }

  -- The socket file is removed, whether that succeeds or not.
  unfoldable pub leave : String → Bool → Process os take_frame read → Main
  leave socket_path true p = ended (ok tt) (remove_file socket_path p.shared.1).1
  leave socket_path false p = serves p

  module _ (binder : Binder os) where
    unfoldable pub main_from : List Moment → Result IoError (Args × binder.Listener) → World → Main
    main_from turns (err e) w = ended (err e) w
    main_from turns (ok (args, listener)) w =
        let s = serve args.once turns (start w) in leave args.socket_path s.stopped s.process

    -- `main`
    unfoldable pub daemon : List String → List Moment → World → Main
    daemon arguments turns w =
        let (started, w') = startup os binder arguments w in main_from turns started w'
