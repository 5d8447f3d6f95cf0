-- ===== src/Daemon/Serve/Restart.antt =====
-- The DEGRADED marker over a whole run of the daemon, from its startup on.
use pulse_narrator.Prelude.{ℕ, ◌≤◌, String, ◌≡◌, ◌↔◌, List, [], Option, none, inl, inr, Bool-cases}
use pulse_narrator.Prelude.Results.{Result, ok}
use pulse_narrator.System.{Os, WritesFiles}
use pulse_narrator.Core.Source.{ProbeOutcome, TurnRead}
use pulse_narrator.Core.Wire.{WireEvent}
use pulse_narrator.Source.Error.{SourceError}
use pulse_narrator.Daemon.Error.{DaemonError}
use pulse_narrator.Daemon.Degraded.{marker_path, mark_degraded, clear_degraded}
use pulse_narrator.Daemon.Degraded.Marker.{clear_degraded_text}
use pulse_narrator.Daemon.Session.{empty_manager}
use pulse_narrator.Daemon.Listener.{Binder, owner_read_write, remove_stale, bind_socket}
use pulse_narrator.Daemon.Listener.Boundary.{removed, bound, bind_socket-eq-ok}
use pulse_narrator.Daemon.Connection.Marked.{IsMarked}
use pulse_narrator.Daemon.Main.{Args, startup}
use pulse_narrator.Daemon.Main.Starting.{secured, cleared, startup-eq-ok}
use pulse_narrator.Daemon.Tasks.Complaints.{made_in_run, LeaveMarker}
use pulse_narrator.Daemon.Tasks.Done.{AllDone}
use pulse_narrator.Daemon.Tasks.Silent.{MakeNoMarker, run-IsMarked_iff}
use pulse_narrator.Daemon.Serve.{Moment, daemon}
use pulse_narrator.Daemon.Serve.Spawning.{choices_of}
use pulse_narrator.Daemon.Serve.Exit.{served, outcome, daemon-outcome}

-- Removing a file, changing a mode and binding a socket write no text at a path.
pub record WritesNoText (os : Os) (binder : Binder os) (path : String) : Type 0 where
  pub removes :
      (p : String) (w : os.World)
      → os.text_at path w ≡ none
      → os.text_at path (os.remove_file p w).1 ≡ none
  pub sets_mode :
      (p : String) (mode : ℕ) (w : os.World)
      → os.text_at path w ≡ none
      → os.text_at path (os.set_permissions p mode w).1 ≡ none
  pub binds :
      (p : String) (w : os.World)
      → os.text_at path w ≡ none
      → os.text_at path (binder.bind p w).1 ≡ none

module _ (os : Os) (binder : Binder os) (marker : String)
    (law : WritesNoText os binder marker) where
  open os use {World, exists, text_at}

  removed-clean :
      (path : String) (w : World)
      → text_at marker w ≡ none
      → text_at marker (removed os binder path w) ≡ none
  unfolding remove_stale
  removed-clean path w clean = elim (Bool-cases (exists path w)) [
    | inl there ↦ rw (removed, remove_stale, there) (law.removes path w clean)
    | inr missing ↦ rw (removed, remove_stale, missing) clean
  ]

  bind_socket-clean :
      (path : String) (w : World) (l : binder.Listener)
      → (bind_socket os binder path w).0 ≡ ok l
      → text_at marker w ≡ none
      → text_at marker (bind_socket os binder path w).1 ≡ none
  bind_socket-clean path w l h clean =
      rw ((bind_socket-eq-ok os binder path w l h).1)
        (law.sets_mode path owner_read_write _ (law.binds path _ (removed-clean path w clean)))

  -- After a startup that succeeds and has cleared the marker there is none.
  startup-clean :
      WritesFiles os
      → ((w : World) → marker_path os w ≡ ok marker)
      → (arguments : List String) (w : World) (args : Args) (l : binder.Listener)
      → (startup os binder arguments w).0 ≡ ok (args, l)
      → (clear_degraded os (secured os binder args.socket_path w)).0 ≡ ok tt
      → text_at marker (startup os binder arguments w).1 ≡ none
  startup-clean files has_home arguments w args l good clear =
      let (_, _, bound, end) = startup-eq-ok os binder arguments w args l good in
      let (path, here, gone) =
        clear_degraded_text os files (secured os binder args.socket_path w) clear in
      let same : path ≡ marker = cc (here, has_home (secured os binder args.socket_path w)) in
      rw end (
        bind_socket-clean args.socket_path (cleared os binder args.socket_path w) l bound
          (rw same at gone))

module _ (os : Os) {Stream : Type 0} (take_frame : Stream → Result DaemonError WireEvent)
    (read : String → Option ℕ → os.World → Result SourceError (ProbeOutcome × TurnRead) × os.World)
    (binder : Binder os) (marker : String)
    (keeps_clean : (s : String) (last : Option ℕ) (w : os.World)
      → os.text_at marker w ≡ none
      → os.text_at marker (read s last w).1 ≡ none) where
  open os use {World, text_at}

  -- A restart is a clean slate: if the startup succeeds and has cleared the marker, `main` goes on as
  -- its accept loop says, and when all handlers have finished the marker is there exactly if this run
  -- gave a reason, whatever an earlier run had left: a reading that found drift or a cut file or
  -- failed, or a recorded event of a degraded hook. Conditions: HOME is set, the marker can be written
  -- to a file system that keeps what is written and removes what it is told to, the socket's file is
  -- no text, and neither the reading nor other programs make the marker or take it away.
  pub daemon-IsMarked_iff :
      WritesNoText os binder marker
      → WritesFiles os
      → ((w : World) → marker_path os w ≡ ok marker)
      → ((reason : String) (w : World) → (mark_degraded os reason w).0 ≡ ok tt)
      → ((s : String) (last : Option ℕ) (w : World)
          → IsMarked os marker w
          → IsMarked os marker (read s last w).1)
      → (arguments : List String) (turns : List (Moment os take_frame read)) (w : World)
        (args : Args) (l : binder.Listener)
      → (startup os binder arguments w).0 ≡ ok (args, l)
      → (clear_degraded os (secured os binder args.socket_path w)).0 ≡ ok tt
      → LeaveMarker os take_frame read marker (choices_of os take_frame read args.once turns)
      → MakeNoMarker os take_frame read marker keeps_clean
          (choices_of os take_frame read args.once turns)
      → let w' = (startup os binder arguments w).1 in
        AllDone (served os take_frame read args.once turns w').tasks
        → (daemon os take_frame read binder arguments turns w
            ≡ outcome os take_frame read args turns w')
          × (IsMarked os marker (served os take_frame read args.once turns w').shared.1 ↔ (
              1
              ≤ made_in_run os take_frame read
                  (choices_of os take_frame read args.once turns)
                  (record { tasks = []; shared = (empty_manager, w') })))
  daemon-IsMarked_iff law files has_home writable leaves arguments turns w args l good clear left
        no_marker done =
      (
        daemon-outcome os take_frame read binder arguments turns w args l good,
        run-IsMarked_iff os take_frame read marker keeps_clean files has_home writable leaves
            (choices_of os take_frame read args.once turns) empty_manager
            (startup os binder arguments w).1 left no_marker
            (startup-clean os binder marker law files has_home arguments w args l good clear) done,
      )
