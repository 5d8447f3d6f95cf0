-- ===== src/Lib.antt =====
-- pulse-narrator: the resident daemon of a voice narrator, the hook process that feeds it, and the
-- transcript reader, over a core crate of shared types and the wire format.
--
-- A hook process (crates/pulse-hook) is started by the agent for each event. It reads a JSON payload,
-- derives an event id, frames a WireEvent (crates/pulse-core/src/wire.rs) and writes it to the Unix
-- socket of the daemon (crates/pulse-daemon). The daemon's connection handler reads one frame, checks
-- its version, gives it to the session manager, which drops repeats, and has the transcript of a new
-- turn read (crates/pulse-source). Whatever makes a turn unreliable is written to a marker file.
--
-- The files and what they model:
--   Prelude       shared helpers: results, actions on a state, words, text formatting, maps
--   System        the operating system, as an interface, and its laws
--   Core          crates/pulse-core/src: event.rs, source.rs, tts.rs, error.rs, and wire.rs in Core.Wire:
--                 encode_wire and decode_wire, in Core.Wire.Stream read_frame and write_frame
--   Source        crates/pulse-source/src: probe.rs in Source.Probe; reader.rs in Source.Settle (settle),
--                 Source.Lines (the walk over the lines) and Source.Reader (read_complete); error.rs and
--                 adapter.rs under their names
--   Daemon        crates/pulse-daemon/src: session.rs in Daemon.Session; connection.rs in Daemon.Connection,
--                 a handler by itself, and in Daemon.Tasks, where handlers interleave; main.rs in
--                 Daemon.Main (arguments, startup) and Daemon.Serve (main as a whole); degraded.rs,
--                 listener.rs, shutdown.rs and error.rs under their names
--   Hook          crates/pulse-hook/src: payload.rs in Hook.Payload, lib.rs in Hook.Build, dispatch.rs in
--                 Hook.Dispatch, main.rs and cli.rs in Hook.Run
--   Examples      concrete environments, and the theorems applied in them
--   UnitTests     the tests that stand beside the code in crates/*/src, run on the model; those that only
--                 ask serde_json to parse, or assert nothing, are left out
-- The child modules of a component hold what is proved of it.
--
-- How code becomes definitions. Code that touches the world is a function from the world to a result
-- and a world (Prelude.Actions); what was done before an error stays done. The world, the file system,
-- the streams, the sockets, timeouts, serde_json and the standard hasher are parameters: records of
-- operations, with the laws that their documentation states as records of their own, which a theorem
-- names where it uses them. A SessionManager is an association list by the text of the session id.
-- Bytes, sizes and durations in milliseconds are natural numbers; u32 and u64 values keep their
-- wrapping or saturating operations. A log line has no model. tokio's channels and signals are
-- parameters too.
--
-- Loops. The settle window recurses on the accessibility of the time left before its bound: each
-- round sleeps for at least a millisecond, so no fuel is needed. Decimal formatting has one more
-- round of fuel than the value of its number, which has no more digits than that.
--
-- Concurrency. A handler that tokio runs is a Task of Daemon.Tasks: one step from a lock or an await
-- to the next. A schedule is any list of steps of any handlers, of accepted connections and of changes
-- that other programs make. The reading of a frame is one step, whose result depends on the peer
-- alone, and the reading of a transcript is one step, an argument where handlers interleave: what the
-- reader makes of a file that changes while it reads is the subject of Source. There any change may
-- happen during a sleep, and between the last poll and the end of the reading of the bytes. In
-- Daemon.Serve the turns of the accept loop join the schedule.
--
-- Not modelled: the steps inside a transcript read among those of other handlers, the order in which
-- tokio's lock wakes its waiters, tracing (log lines), clap's argument parsing, the scripts and the
-- launchd template.
pub mod Prelude
pub mod System
pub mod Core
pub mod Source
pub mod Daemon
pub mod Hook
pub mod Examples
pub mod UnitTests
