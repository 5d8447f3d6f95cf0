-- ===== src/Daemon/Tasks/Done.antt =====
-- Handlers that have all come to their end.
use pulse_narrator.Prelude.{List, [], ◌∷◌}
use pulse_narrator.Prelude.Results.{Result}
use pulse_narrator.Daemon.Error.{DaemonError}
use pulse_narrator.Daemon.Tasks.{
  Task, receiving, recording, fetching, reading, storing, judging, failing, finished,
}

module _ {Stream : Type 0} where
  -- Every handler has finished.
  abbrev pub AllDone : List (Task Stream) → Type 0
  AllDone [] = Unit
  AllDone (finished r ∷ tasks) = AllDone tasks
  AllDone (_ ∷ tasks) = ⊥

  -- What holds of no handlers, and of one more that has finished, holds when all have finished.
  pub AllDone-ind :
      (P : List (Task Stream) → Type 0)
      → P []
      → ((r : Result DaemonError (Unit {0})) (tasks : List (Task Stream))
          → P tasks
          → P (finished r ∷ tasks))
      → (tasks : List (Task Stream)) → AllDone tasks
      → P tasks
  AllDone-ind P base more [] d = base
  AllDone-ind P base more (finished r ∷ tasks) d = more r tasks (AllDone-ind P base more tasks d)
  AllDone-ind P base more (receiving _ ∷ tasks) d = absurd d
  AllDone-ind P base more (recording _ ∷ tasks) d = absurd d
  AllDone-ind P base more (fetching _ _ ∷ tasks) d = absurd d
  AllDone-ind P base more (reading _ _ _ ∷ tasks) d = absurd d
  AllDone-ind P base more (storing _ _ _ ∷ tasks) d = absurd d
  AllDone-ind P base more (judging _ _ ∷ tasks) d = absurd d
  AllDone-ind P base more (failing _ ∷ tasks) d = absurd d
