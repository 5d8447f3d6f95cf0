-- ===== src/Daemon/Main.antt =====
-- crates/pulse-daemon/src/main.rs: the command line, the startup, and what the accept loop spawns.
pub mod Arguments
pub mod Accepting
pub mod Starting
use pulse_narrator.Prelude.{
  ℕ, ◌*◌, String, ◌<>◌, List, [], ◌∷◌, Bool, true, false, Option, none, some, str_eq, ◌==◌,
}
use pulse_narrator.Prelude.Results.{Result, ok, err, map_err}
use Prim.Native.Char.{code}
use pulse_narrator.Prelude.Actions.{Action, pure, lift, on_err, ◌>>=◌, ◌>>◌}
use pulse_narrator.Prelude.Paths.{push}
use pulse_narrator.System.{Os, IoError, invalid_input, other}
use pulse_narrator.Daemon.Error.{DaemonError, to_text}
use pulse_narrator.Daemon.Degraded.{clear_degraded}
use pulse_narrator.Daemon.Listener.{Binder, bind_socket}

abbrev pub socket_name : String
socket_name = "Library/Application Support/PulseVoice/daemon.sock"

-- Mode 0700.
abbrev pub owner_all : ℕ
owner_all = 7 * 64

-- `str::strip_prefix`
unfoldable pub strip_prefix : String → String → Option String
strip_prefix String.[] s = some s
strip_prefix (String.◌∷◌ c p) String.[] = none
strip_prefix (String.◌∷◌ c p) (String.◌∷◌ d s) =
    let rest = strip_prefix p s in elim (code c == code d) [ true ↦ rest | false ↦ none ]

pub record Args : Type 0 where
  pub socket_path : String
  pub once : Bool

-- What one argument is.
pub data Flag : Type 0 where
  path_in : String → Flag
  path_next once_only : Flag
  unknown : Flag

unfoldable pub bare_flag : String → Option String → Flag
bare_flag arg (some rest) = path_in rest
bare_flag arg none = elim (str_eq arg "--socket-path") [
  | true ↦ path_next
  | false ↦ elim (str_eq arg "--once") [ true ↦ once_only | false ↦ unknown ]
]

unfoldable pub flag_of : String → Flag
flag_of arg = bare_flag arg (strip_prefix "--socket-path=" arg)

-- The last argument.
unfoldable pub on_last : Flag → String → Args → Result String Args
on_last (path_in rest) arg args = ok (record args { socket_path = rest })
on_last path_next arg args = err "--socket-path requires a value"
on_last once_only arg args = ok (record args { once = true })
on_last unknown arg args = err ("unknown argument: " <> arg)

-- An argument with another one behind it: `next` reads on there, and `skip` behind that one.
unfoldable pub on_argument :
    Flag
    → String
    → String
    → (Args → Result String Args)
    → (Args → Result String Args)
    → Args
    → Result String Args
on_argument (path_in rest) arg value next skip args = next (record args { socket_path = rest })
on_argument path_next arg value next skip args = skip (record args { socket_path = value })
on_argument once_only arg value next skip args = next (record args { once = true })
on_argument unknown arg value next skip args = err ("unknown argument: " <> arg)

-- The `while` loop.
unfoldable pub parse_loop : List String → Args → Result String Args
parse_loop [] args = ok args
parse_loop (arg ∷ []) args = on_last (flag_of arg) arg args
parse_loop (arg ∷ value ∷ more) args =
    on_argument (flag_of arg) arg value (parse_loop (value ∷ more)) (parse_loop more) args

unfoldable pub default_socket_path : Option String → Option String
default_socket_path none = none
default_socket_path (some home) = some (push home socket_name)

-- `default_socket_path().unwrap_or_else(|| PathBuf::from("daemon.sock"))`
unfoldable pub or_local : Option String → String
or_local none = "daemon.sock"
or_local (some path) = path

-- The arguments without any flag; `home` is the variable HOME.
unfoldable pub start_args : Option String → Args
start_args home = record { socket_path = or_local (default_socket_path home); once = false }

-- `arguments` are those behind the name of the program.
unfoldable pub parse_args : Option String → List String → Result String Args
parse_args home arguments = parse_loop arguments (start_args home)

module _ (os : Os) where
  open os use {World, home, parent, create_dir_all, set_permissions}

  unfoldable pub secure : Option String → Action World IoError (Unit {0})
  secure none = pure tt
  secure (some dir) = do create_dir_all dir; set_permissions dir owner_all

  unfoldable pub ensure_parent_dir : String → Action World IoError (Unit {0})
  ensure_parent_dir socket_path = secure (parent socket_path)

  -- A marker that cannot be cleared is only logged.
  unfoldable pub try_clear : Action World IoError (Unit {0})
  try_clear w = (ok tt, (clear_degraded os w).1)

  abbrev pub bad_arguments : String → IoError
  bad_arguments message = record { kind = invalid_input; message = message }

  abbrev pub bind_failed : DaemonError → IoError
  bind_failed e = record { kind = other; message = to_text e }

  module _ (binder : Binder os) where
    -- `main` up to the accept loop.
    unfoldable pub startup : List String → Action World IoError (Args × binder.Listener)
    startup arguments = do
      args ← λ w. (map_err bad_arguments (parse_args (home w) arguments), w)
      ensure_parent_dir args.socket_path
      try_clear
      listener ← on_err bind_failed (bind_socket os binder args.socket_path)
      pure (args, listener)

-- What a turn of the accept loop's `select!` gives: a connection, a failed accept, or the end of
-- `wait_for_signal`, in whichever way that ends.
pub data Wake (Stream : Type 0) : Type 0 where
  accepted : Stream → Wake Stream
  accept_failed : Wake Stream
  signal : Result IoError (Unit {0}) → Wake Stream

-- The connection that the body of the loop spawns a handler for, and whether it returns.
unfoldable pub on_wake : {Stream : Type 0} → Bool → Wake Stream → Option Stream × Bool
on_wake once (accepted stream) = (some stream, once)
on_wake once accept_failed = (none, once)
on_wake once (signal result) = (none, true)

abbrev pub spawned : {Stream : Type 0} → Option Stream → List Stream → List Stream
spawned none streams = streams
spawned (some stream) streams = stream ∷ streams

-- The connections that `run_accept_loop` spawns handlers for, and the wakes that it leaves.
unfoldable pub run_accept_loop :
    {Stream : Type 0} → Bool → List (Wake Stream) → List Stream × List (Wake Stream)
run_accept_loop once [] = ([], [])
run_accept_loop once (wake ∷ wakes) =
    let (stream, stop) = on_wake once wake in
    let rest = run_accept_loop once wakes in
    elim stop [ true ↦ (spawned stream [], wakes) | false ↦ (spawned stream rest.0, rest.1) ]
