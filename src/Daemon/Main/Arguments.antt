-- ===== src/Daemon/Main/Arguments.antt =====
-- The command line: what is written is read back, and a later flag overrides an earlier one.
use pulse_narrator.Prelude.{String, ◌≡◌, refl, List, [], ◌∷◌, Bool, true, false, Option}
use pulse_narrator.Prelude.Results.{ok}
use pulse_narrator.Daemon.Main.{
  Args, strip_prefix, bare_flag, flag_of, on_last, on_argument, parse_loop, start_args, parse_args,
}

-- The command line for some arguments.
abbrev pub once_flag : Bool → List String
once_flag true = "--once" ∷ []
once_flag false = []

abbrev pub command_line : Args → List String
command_line args = "--socket-path" ∷ args.socket_path ∷ once_flag args.once

-- Every choice of arguments has a command line that gives it.
pub parse_args-command_line :
    (home : Option String) (args : Args) → parse_args home (command_line args) ≡ ok args
unfolding parse_args parse_loop flag_of bare_flag strip_prefix start_args on_last on_argument
parse_args-command_line home args = by_once args.once
  where
    by_once :
        (once : Bool)
        → parse_args home (command_line (record args { once = once }))
          ≡ ok (record args { once = once })
    by_once true = refl
    by_once false = refl
