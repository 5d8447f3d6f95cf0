-- ===== src/Daemon/Main/Accepting.antt =====
-- What the accept loop spawns handlers for.
use pulse_narrator.Prelude.{◌≤◌, ◌≡◌, refl, ap, List, [], ◌∷◌, true, false, arith, length}
use pulse_narrator.Daemon.Main.{Wake, accepted, accept_failed, signal, on_wake, run_accept_loop}

module _ {Stream : Type 0} where
  -- The connections accepted before the first signal.
  abbrev pub before_signal : List (Wake Stream) → List Stream
  before_signal [] = []
  before_signal (signal result ∷ wakes) = []
  before_signal (accept_failed ∷ wakes) = before_signal wakes
  before_signal (accepted stream ∷ wakes) = stream ∷ before_signal wakes

  -- A resident daemon handles every connection accepted before the first signal, in order, a failed
  -- accept costing none of them, and none after it; with `--once` it handles at most one.
  pub run_accept_loop_spawns :
      (wakes : List (Wake Stream))
      → ((run_accept_loop false wakes).0 ≡ before_signal wakes)
        × (length (run_accept_loop true wakes).0 ≤ 1)
  unfolding run_accept_loop on_wake
  run_accept_loop_spawns [] = (refl, omega arith)
  run_accept_loop_spawns (signal result ∷ wakes) = (refl, omega arith)
  run_accept_loop_spawns (accept_failed ∷ wakes) = ((run_accept_loop_spawns wakes).0, omega arith)
  run_accept_loop_spawns (accepted stream ∷ wakes) =
      (ap (λ s. stream ∷ s) (run_accept_loop_spawns wakes).0, omega arith)
