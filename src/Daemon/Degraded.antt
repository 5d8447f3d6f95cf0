-- ===== src/Daemon/Degraded.antt =====
-- crates/pulse-daemon/src/degraded.rs: the DEGRADED marker file.
pub mod Marker
use pulse_narrator.Prelude.{String, Bool, Option, none, some, if◌then◌else◌}
use pulse_narrator.Prelude.Results.{Result, ok, err}
use pulse_narrator.Prelude.Actions.{Action, pure, lift, on_err, ◌>>=◌, ◌>>◌}
use pulse_narrator.Prelude.Paths.{push}
use pulse_narrator.System.{Os, IoError, not_found}
use pulse_narrator.Daemon.Error.{DaemonError, degraded_marker}

abbrev pub marker_name : String
marker_name = "Library/Application Support/PulseVoice/DEGRADED"

abbrev pub home_not_set : DaemonError
home_not_set =
    degraded_marker "$HOME" (record { kind = not_found; message = "HOME env var not set" })

module _ (os : Os) where
  open os use {World, home, parent, exists, write, remove_file, create_dir_all}

  unfoldable pub marker_path : World → Result DaemonError String
  marker_path w = elim (home w) [ none ↦ err home_not_set | some dir ↦ ok (push dir marker_name) ]

  unfoldable pub clear_degraded : Action World DaemonError (Unit {0})
  clear_degraded = do
    path ← λ w. (marker_path w, w)
    present ← λ w. (ok (exists path w), w)
    if present then on_err (degraded_marker path) (remove_file path) else pure tt

  -- `if let Some(parent) = path.parent()`
  unfoldable pub make_parent : Option String → Action World DaemonError (Unit {0})
  make_parent none = pure tt
  make_parent (some dir) = on_err (degraded_marker dir) (create_dir_all dir)

  unfoldable pub mark_degraded : String → Action World DaemonError (Unit {0})
  mark_degraded reason = do
    path ← λ w. (marker_path w, w)
    make_parent (parent path)
    on_err (degraded_marker path) (write path reason)
