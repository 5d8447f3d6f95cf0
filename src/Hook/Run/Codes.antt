-- ===== src/Hook/Run/Codes.antt =====
-- What each exit code of the hook means.
use pulse_narrator.Prelude.{ℕ, String, ◌≡◌, ◌⊎◌, refl, ap, ◌∙◌, List, true, false, inl, inr}
use pulse_narrator.Prelude.Results.{Result, ok, err}
use pulse_narrator.System.{Os, IoError}
use pulse_narrator.Core.Wire.{JsonError, Serde}
use pulse_narrator.Hook.Payload.{ClaudeHookPayload}
use pulse_narrator.Hook.Dispatch.{Socket, deliver}
use pulse_narrator.Hook.Dispatch.Outcomes.{Connected, deliver-cases}
use pulse_narrator.Hook.Run.{
  Cli, resolve_timeouts, exit_status, deliver_and_exit, read_payload_stdin, on_payload,
  after_message, run, main,
}
use pulse_narrator.Hook.Run.EndToEnd.{event_of_run, SentByRun}

module _ (from_bytes : List ℕ → Result JsonError ClaudeHookPayload) (hash : List ℕ → ℕ) (os : Os)
    (socket : Socket os) (serde : Serde) (cli : Cli) (w : os.World) where
  open os use {World, exists}

  -- What the connect of a run gives.
  abbrev pub ConnectedByRun : Type 0
  ConnectedByRun = Connected os socket serde (resolve_timeouts cli.timeout_ms).0 cli.socket_path w

  -- The reasons for each code.
  abbrev pub CodeOf : ℕ → Result IoError (Unit {0}) → Result IoError (List ℕ) → Type 0
  CodeOf code (err e) stdin = code ≡ 4
  CodeOf code (ok runtime) (err e) = code ≡ 4
  CodeOf code (ok runtime) (ok raw) =
      ((code ≡ 2) × (exists cli.socket_path w ≡ false))
      ⊎ ((code ≡ 3) × (exists cli.socket_path w ≡ true) × ¬ ConnectedByRun)
      ⊎ ((code ≡ 0) × SentByRun from_bytes hash os socket serde cli w raw)
      ⊎ ((code ≡ 4)
          × (exists cli.socket_path w ≡ true)
          × ConnectedByRun
          × ¬ SentByRun from_bytes hash os socket serde cli w raw)

  run-code :
      (debug : ℕ → String) (raw : List ℕ)
      → (run from_bytes hash os socket serde debug cli (ok raw) w).0.code
        ≡ exit_status
            (deliver os socket serde
              (event_of_run from_bytes hash os socket serde cli w raw)
              cli.socket_path
              (resolve_timeouts cli.timeout_ms).0
              (resolve_timeouts cli.timeout_ms).1
              w).0
  unfolding run on_payload read_payload_stdin after_message deliver_and_exit
  run-code debug raw = refl

  -- The exit code of the hook process is one of the four that its help text lists: 0 if the frame of
  -- the event was written to a connected socket, 2 if no socket was there, 3 if one was there that
  -- gave no connection in time, and 4 if there was a connection but the event was not encoded or its
  -- frame not written in time, or if the runtime did not start or standard input could not be read.
  pub main-CodeOf :
      (debug : ℕ → String) (runtime : Result IoError (Unit {0})) (stdin : Result IoError (List ℕ))
      → CodeOf (main from_bytes hash os socket serde debug runtime cli stdin w).0.code runtime stdin
  unfolding main run on_payload read_payload_stdin exit_status
  main-CodeOf debug (err e) stdin = refl
  main-CodeOf debug (ok runtime) (err e) = refl
  main-CodeOf debug (ok runtime) (ok raw) =
      elim (deliver-cases os socket serde (event_of_run from_bytes hash os socket serde cli w raw)
        cli.socket_path (resolve_timeouts cli.timeout_ms).0 (resolve_timeouts cli.timeout_ms).1 w) [
          | inl (o, missing) ↦ inl (run-code debug raw ∙ ap exit_status o, missing)
          | inr (inl (o, there, refused)) ↦
              inr (inl (run-code debug raw ∙ ap exit_status o, there, refused))
          | inr (inr (inl (o, sent))) ↦
              inr (inr (inl (run-code debug raw ∙ ap exit_status o, sent)))
          | inr (inr (inr (o, there, connected, unsent))) ↦
              inr (inr (inr (run-code debug raw ∙ ap exit_status o, there, connected, unsent)))
        ]
