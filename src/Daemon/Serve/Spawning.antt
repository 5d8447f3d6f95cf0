-- ===== src/Daemon/Serve/Spawning.antt =====
-- Which handlers run, however the accept loop and they interleave.
use pulse_narrator.Prelude.{ℕ, String, ◌≡◌, refl, ap, List, [], ◌∷◌, Bool, true, false, Option}
use pulse_narrator.Prelude.Results.{Result}
use pulse_narrator.System.{Os}
use pulse_narrator.Core.Source.{ProbeOutcome, TurnRead}
use pulse_narrator.Core.Wire.{WireEvent}
use pulse_narrator.Source.Error.{SourceError}
use pulse_narrator.Daemon.Error.{DaemonError}
use pulse_narrator.Daemon.Main.{Wake, accepted, accept_failed, signal, on_wake, run_accept_loop}
use pulse_narrator.Daemon.Tasks.{Choice, go, accept, outside, Process, advance, run}
use pulse_narrator.Daemon.Serve.{Moment, polled, ran, changed, spawn, poll, serve_turn, serve}

module _ (os : Os) {Stream : Type 0} (take_frame : Stream → Result DaemonError WireEvent)
    (read : String
      → Option ℕ
      → os.World
      → Result SourceError (ProbeOutcome × TurnRead) × os.World) where
  open os use {World}

  -- What the accept loop sees of some turns.
  abbrev pub wakes_of : List (Moment os take_frame read) → List (Wake Stream)
  wakes_of [] = []
  wakes_of (polled wake ∷ turns) = wake ∷ wakes_of turns
  wakes_of (ran i ∷ turns) = wakes_of turns
  wakes_of (changed change ∷ turns) = wakes_of turns

  -- The connections that a schedule of the handlers accepts.
  abbrev pub accepts : List (Choice os take_frame read) → List Stream
  accepts [] = []
  accepts (go i ∷ choices) = accepts choices
  accepts (accept stream ∷ choices) = stream ∷ accepts choices
  accepts (outside change ∷ choices) = accepts choices

  -- The schedule of the handlers, once the loop has returned.
  abbrev rest_of : List (Moment os take_frame read) → List (Choice os take_frame read)
  rest_of [] = []
  rest_of (polled wake ∷ turns) = rest_of turns
  rest_of (ran i ∷ turns) = go i ∷ rest_of turns
  rest_of (changed change ∷ turns) = outside change ∷ rest_of turns

  -- The schedule of the handlers, from the turns of the whole process: the connections that come
  -- before a signal or, with `--once`, before the second wake of the loop are accepted.
  abbrev pub choices_of : Bool → List (Moment os take_frame read) → List (Choice os take_frame read)
  choices_of once [] = []
  choices_of once (polled (signal result) ∷ turns) = rest_of turns
  choices_of true (polled (accepted stream) ∷ turns) = accept stream ∷ rest_of turns
  choices_of false (polled (accepted stream) ∷ turns) = accept stream ∷ choices_of false turns
  choices_of true (polled accept_failed ∷ turns) = rest_of turns
  choices_of false (polled accept_failed ∷ turns) = choices_of false turns
  choices_of once (ran i ∷ turns) = go i ∷ choices_of once turns
  choices_of once (changed change ∷ turns) = outside change ∷ choices_of once turns

  accepts-rest_of : (turns : List (Moment os take_frame read)) → accepts (rest_of turns) ≡ []
  accepts-rest_of [] = refl
  accepts-rest_of (polled wake ∷ turns) = accepts-rest_of turns
  accepts-rest_of (ran i ∷ turns) = accepts-rest_of turns
  accepts-rest_of (changed change ∷ turns) = accepts-rest_of turns

  serve-rest_of :
      (once : Bool) (turns : List (Moment os take_frame read)) (p : Process os take_frame read)
      → (serve os take_frame read once turns (record { process = p; stopped = true })).process
        ≡ run os take_frame read (rest_of turns) p
  unfolding serve serve_turn poll run
  serve-rest_of once [] p = refl
  serve-rest_of once (polled wake ∷ turns) p = serve-rest_of once turns p
  serve-rest_of once (ran i ∷ turns) p =
      serve-rest_of once turns (advance os take_frame read (go i) p)
  serve-rest_of once (changed change ∷ turns) p =
      serve-rest_of once turns (advance os take_frame read (outside change) p)

  accepts-choices_of :
      (once : Bool) (turns : List (Moment os take_frame read))
      → accepts (choices_of once turns) ≡ (run_accept_loop once (wakes_of turns)).0
  unfolding run_accept_loop on_wake
  accepts-choices_of once [] = refl
  accepts-choices_of true (polled (accepted stream) ∷ turns) =
      ap (λ s. stream ∷ s) (accepts-rest_of turns)
  accepts-choices_of false (polled (accepted stream) ∷ turns) =
      ap (λ s. stream ∷ s) (accepts-choices_of false turns)
  accepts-choices_of true (polled accept_failed ∷ turns) = accepts-rest_of turns
  accepts-choices_of false (polled accept_failed ∷ turns) = accepts-choices_of false turns
  accepts-choices_of once (polled (signal result) ∷ turns) = accepts-rest_of turns
  accepts-choices_of once (ran i ∷ turns) = accepts-choices_of once turns
  accepts-choices_of once (changed change ∷ turns) = accepts-choices_of once turns

  pub serve-choices_of :
      (once : Bool) (turns : List (Moment os take_frame read)) (p : Process os take_frame read)
      → (serve os take_frame read once turns (record { process = p; stopped = false })).process
        ≡ run os take_frame read (choices_of once turns) p
  unfolding serve serve_turn poll run on_wake spawn
  serve-choices_of once [] p = refl
  serve-choices_of true (polled (accepted stream) ∷ turns) p =
      serve-rest_of true turns (advance os take_frame read (accept stream) p)
  serve-choices_of false (polled (accepted stream) ∷ turns) p =
      serve-choices_of false turns (advance os take_frame read (accept stream) p)
  serve-choices_of true (polled accept_failed ∷ turns) p = serve-rest_of true turns p
  serve-choices_of false (polled accept_failed ∷ turns) p = serve-choices_of false turns p
  serve-choices_of once (polled (signal result) ∷ turns) p = serve-rest_of once turns p
  serve-choices_of once (ran i ∷ turns) p =
      serve-choices_of once turns (advance os take_frame read (go i) p)
  serve-choices_of once (changed change ∷ turns) p =
      serve-choices_of once turns (advance os take_frame read (outside change) p)

  -- However the accept loop, the handlers and other programs take turns, the process runs the
  -- schedule of handlers that is left when the turns of the accept loop are replaced by the
  -- connections that come before a signal or, with `--once`, by that of the first wake; all handlers
  -- go on afterwards. The same connections, in order, are those that the accept loop spawns handlers
  -- for by itself.
  pub serve-run_accept_loop :
      (once : Bool) (turns : List (Moment os take_frame read)) (p : Process os take_frame read)
      → (accepts (choices_of once turns) ≡ (run_accept_loop once (wakes_of turns)).0)
        × ((serve os take_frame read once turns (record { process = p; stopped = false })).process
            ≡ run os take_frame read (choices_of once turns) p)
  serve-run_accept_loop once turns p =
      (accepts-choices_of once turns, serve-choices_of once turns p)
