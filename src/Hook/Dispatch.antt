-- ===== src/Hook/Dispatch.antt =====
-- crates/pulse-hook/src/dispatch.rs: the bounded delivery of one event.
pub mod Outcomes
use pulse_narrator.Prelude.{
  ℕ, ◌+◌, ◌≤◌, ◌≡◌, String, List, [], ◌++◌, Bool, true, false, Option, none, some, if◌then◌else◌,
}
use pulse_narrator.Prelude.Results.{Result, ok, err}
use pulse_narrator.System.{Os, IoError}
use pulse_narrator.Core.Wire.{WireEvent, WireError, Serde, encode_wire}

-- Milliseconds.
abbrev pub default_connect_timeout : ℕ
default_connect_timeout = 200

abbrev pub default_write_timeout : ℕ
default_write_timeout = 500

pub data DeliverOutcome : Type 0 where
  delivered socket_absent connect_failed write_timed_out : DeliverOutcome

unfoldable pub exit_code : DeliverOutcome → ℕ
exit_code delivered = 0
exit_code socket_absent = 2
exit_code connect_failed = 3
exit_code write_timed_out = 4

-- `UnixStream::connect` and `write_all`, each under `tokio::time::timeout`: `none` if the time is
-- up. `sent` is what has been written to a stream, for statements alone.
pub record Socket (os : Os) : Type 1 where
  pub Stream : Type 0
  pub connect : ℕ → String → os.World → Option (Result IoError Stream) × os.World
  pub write_all :
      ℕ → List ℕ → Stream → os.World → Option (Result IoError (Unit {0})) × Stream × os.World
  pub flush : Stream → os.World → Result IoError (Unit {0}) × Stream × os.World
  pub sent : Stream → List ℕ

-- What tokio documents: a timeout ends an operation when its time is up, a connection starts
-- empty, a write that succeeds has written everything, and the flush of a Unix stream does nothing.
pub record Bounded (os : Os) (socket : Socket os) : Type 0 where
  pub connect_clock :
      (d : ℕ) (path : String) (w : os.World) → os.clock (socket.connect d path w).1 ≤ os.clock w + d
  pub write_clock :
      (d : ℕ) (bytes : List ℕ) (s : socket.Stream) (w : os.World)
      → os.clock (socket.write_all d bytes s w).2 ≤ os.clock w + d
  pub flush_clock : (s : socket.Stream) (w : os.World) → os.clock (socket.flush s w).2 ≡ os.clock w
  pub fresh :
      (d : ℕ) (path : String) (w : os.World) (s : socket.Stream)
      → (socket.connect d path w).0 ≡ some (ok s)
      → socket.sent s ≡ []
  pub written :
      (d : ℕ) (bytes : List ℕ) (s : socket.Stream) (w : os.World)
      → (socket.write_all d bytes s w).0 ≡ some (ok tt)
      → socket.sent (socket.write_all d bytes s w).1 ≡ socket.sent s ++ bytes

module _ (os : Os) (socket : Socket os) (serde : Serde) where
  open os use {World, exists}
  open socket use {Stream, connect, write_all, flush}

  -- Step (3), on the frame: the result of the flush is ignored.
  unfoldable pub write_frame_bounded : ℕ → List ℕ → Stream → World → DeliverOutcome × World
  write_frame_bounded write_timeout frame stream w =
      let (written, stream', w') = write_all write_timeout frame stream w in
      elim written [
        | some (ok u) ↦ (delivered, (flush stream' w').2)
        | some (err e) ↦ (write_timed_out, w')
        | none ↦ (write_timed_out, w')
      ]

  -- The encoding of the frame and step (3), on a connected stream.
  unfoldable pub send : ℕ → WireEvent → Stream → World → DeliverOutcome × World
  send write_timeout event stream w = elim (encode_wire serde event) [
    | err e ↦ (write_timed_out, w)
    | ok frame ↦ write_frame_bounded write_timeout frame stream w
  ]

  -- Step (2): what the bounded connect gave.
  unfoldable pub on_connect :
      ℕ → WireEvent → Option (Result IoError Stream) → World → DeliverOutcome × World
  on_connect write_timeout event (some (ok stream)) w = send write_timeout event stream w
  on_connect write_timeout event (some (err e)) w = (connect_failed, w)
  on_connect write_timeout event none w = (connect_failed, w)

  unfoldable pub deliver : WireEvent → String → ℕ → ℕ → World → DeliverOutcome × World
  deliver event socket_path connect_timeout write_timeout w = elim (exists socket_path w) [
    | false ↦ (socket_absent, w)
    | true ↦
        let (connected, w') = connect connect_timeout socket_path w in
        on_connect write_timeout event connected w'
  ]
