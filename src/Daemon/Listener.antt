-- ===== src/Daemon/Listener.antt =====
-- crates/pulse-daemon/src/listener.rs: the socket that the daemon listens on.
pub mod Boundary
use pulse_narrator.Prelude.{ℕ, ◌*◌, ◌≡◌, String, true, false, Option, some}
use pulse_narrator.Prelude.Results.{ok}
use pulse_narrator.Prelude.Actions.{Action, pure, on_err, ◌>>=◌, ◌>>◌}
use pulse_narrator.System.{Os, IoError}
use pulse_narrator.Daemon.Error.{DaemonError, io}

-- `UnixListener::bind`. `mode_at` is the mode of the file at a path, for statements alone.
pub record Binder (os : Os) : Type 1 where
  pub Listener : Type 0
  pub bind : String → Action os.World IoError Listener
  pub mode_at : String → os.World → Option ℕ

-- What Rust documents of `std::fs::set_permissions`, where it succeeds.
pub record KeepsModes (os : Os) (binder : Binder os) : Type 0 where
  pub mode_set :
      (path : String) (mode : ℕ) (w : os.World)
      → (os.set_permissions path mode w).0 ≡ ok tt
      → binder.mode_at path (os.set_permissions path mode w).1 ≡ some mode

-- Mode 0600: read and write for the owner.
abbrev pub owner_read_write : ℕ
owner_read_write = 6 * 64

module _ (os : Os) (binder : Binder os) where
  open os use {World, exists, remove_file, set_permissions}
  open binder use {Listener, bind}

  unfoldable pub remove_stale : String → Action World DaemonError (Unit {0})
  remove_stale path w = elim (exists path w) [
    | true ↦ on_err io (remove_file path) w
    | false ↦ (ok tt, w)
  ]

  unfoldable pub bind_socket : String → Action World DaemonError Listener
  bind_socket path = do
    remove_stale path
    listener ← on_err io (bind path)
    on_err io (set_permissions path owner_read_write)
    pure listener
