-- ===== src/Daemon/Shutdown.antt =====
-- crates/pulse-daemon/src/shutdown.rs, on a Unix target.
use pulse_narrator.Prelude.Results.{Result, ok}
use pulse_narrator.Prelude.Actions.{Action, ◌>>=◌}
use pulse_narrator.System.{Os, IoError}

-- The signal that ends the wait.
pub data Caught : Type 0 where
  sigterm interrupt : Caught

-- tokio's signals: `register` is `signal::unix::signal(SignalKind::terminate())`, and `first` the
-- `select!` of its `recv` and of `ctrl_c`.
pub record Signals (os : Os) : Type 1 where
  pub Sigterm : Type 0
  pub register : Action os.World IoError Sigterm
  pub first : Sigterm → os.World → Caught × os.World

-- Both arms of the `select!` only log.
unfoldable pub logged : Caught → Result IoError (Unit {0})
logged sigterm = ok tt
logged interrupt = ok tt

module _ (os : Os) (signals : Signals os) where
  open os use {World}
  open signals use {register, first}

  unfoldable pub wait_for_signal : Action World IoError (Unit {0})
  wait_for_signal = do
    terminate ← register
    λ w. let (caught, w') = first terminate w in (logged caught, w')
