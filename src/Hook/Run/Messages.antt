-- ===== src/Hook/Run/Messages.antt =====
-- When the hook is silent.
use pulse_narrator.Prelude.{
  ℕ, String, ◌≡◌, ◌≢◌, ◌⊎◌, ◌↔◌, refl, append-nil, List, [], ◌∷◌, inl, inr, arith,
}
use mathlib.Core.List.{append-eq-nil_iff}
use pulse_narrator.Prelude.Results.{Result, ok, err, Result-cases}
use pulse_narrator.System.{Os, IoError}
use pulse_narrator.Core.Wire.{JsonError, Serde}
use pulse_narrator.Hook.Payload.{ClaudeHookPayload}
use pulse_narrator.Hook.Dispatch.{
  DeliverOutcome, delivered, socket_absent, connect_failed, write_timed_out, Socket,
}
use pulse_narrator.Hook.Run.{
  Cli, to_hook_kind, exit_status, event_for, after_message, parse_messages, outcome_messages,
  deliver_and_exit, read_payload_stdin, on_payload, run, main,
}

module _ (from_bytes : List ℕ → Result JsonError ClaudeHookPayload) where
  -- An input that is empty, which is no payload at all, or that parses.
  abbrev pub IsEmptyOrParses : List ℕ → Type 0
  IsEmptyOrParses raw = (raw ≡ []) ⊎ ((payload : ClaudeHookPayload) × (from_bytes raw ≡ ok payload))

  module _ (hash : List ℕ → ℕ) where
    parse_messages-empty :
        (raw : List ℕ) → IsEmptyOrParses raw → parse_messages from_bytes hash raw ≡ []
    unfolding parse_messages
    parse_messages-empty [] p = refl
    parse_messages-empty (b ∷ bs) (inl e) = absurd (cc e)
    parse_messages-empty (b ∷ bs) (inr (payload, e)) = rw e refl

    parse_messages-IsEmptyOrParses :
        (raw : List ℕ) → parse_messages from_bytes hash raw ≡ [] → IsEmptyOrParses raw
    unfolding parse_messages
    parse_messages-IsEmptyOrParses [] e = inl refl
    parse_messages-IsEmptyOrParses (b ∷ bs) e = elim (Result-cases (from_bytes (b ∷ bs))) [
      | inl (payload, there) ↦ inr (payload, there)
      | inr (x, failed) ↦ absurd (cc (rw failed at e))
    ]

module _ (from_bytes : List ℕ → Result JsonError ClaudeHookPayload) (hash : List ℕ → ℕ) (os : Os)
    (socket : Socket os) (serde : Serde) (debug : ℕ → String) where
  open os use {World}

  outcome_messages-cases :
      (o : DeliverOutcome) (path : String) (connect_t write_t : ℕ)
      → ((exit_status o ≡ 0)
          × (outcome_messages from_bytes hash os socket serde debug o path connect_t write_t ≡ []))
        ⊎ ((exit_status o ≢ 0)
            × (outcome_messages from_bytes hash os socket serde debug o path connect_t write_t
                ≢ []))
  unfolding exit_status outcome_messages
  outcome_messages-cases delivered path c t = inl (refl, refl)
  outcome_messages-cases socket_absent path c t = inr (λ h. omega arith, λ h. cc)
  outcome_messages-cases connect_failed path c t = inr (λ h. omega arith, λ h. cc)
  outcome_messages-cases write_timed_out path c t = inr (λ h. omega arith, λ h. cc)

  -- An end is quiet if its code is zero and it has no message.
  deliver_and_exit-cases :
      (cli : Cli) (w : World) (raw : List ℕ)
      → let exit =
          (deliver_and_exit from_bytes hash os socket serde debug cli
            (event_for from_bytes hash raw (to_hook_kind cli.hook_kind))
            w).0 in
        ((exit.code ≡ 0) × (exit.messages ≡ [])) ⊎ ((exit.code ≢ 0) × (exit.messages ≢ []))
  unfolding deliver_and_exit
  deliver_and_exit-cases cli w raw = outcome_messages-cases _ cli.socket_path _ _

  -- Standard input was read, and is no payload that does not parse.
  abbrev pub HasNoBadPayload : Result IoError (List ℕ) → Type 0
  HasNoBadPayload stdin = (raw : List ℕ) × (stdin ≡ ok raw) × IsEmptyOrParses from_bytes raw

  -- The hook prints nothing on standard error exactly if it exits with zero and standard
  -- input was read and was either empty, which is no payload at all, or a payload that parses.
  pub main_silent_iff :
      (runtime : Result IoError (Unit {0})) (cli : Cli) (stdin : Result IoError (List ℕ))
      (w : World)
      → ((main from_bytes hash os socket serde debug runtime cli stdin w).0.messages ≡ []) ↔ (
          ((main from_bytes hash os socket serde debug runtime cli stdin w).0.code ≡ 0)
          × HasNoBadPayload stdin)
  unfolding main run on_payload read_payload_stdin after_message
  main_silent_iff (err e) cli stdin w = (λ h. absurd (cc h), λ (four, p). absurd (omega arith))
  main_silent_iff (ok u) cli (err e) w = (λ h. absurd (cc h), λ (zero, p). absurd (omega arith))
  main_silent_iff (ok u) cli (ok raw) w = elim (deliver_and_exit-cases cli w raw) [
    | inl (zero, quiet) ↦ (
      λ h. (
        zero,
        (
          raw,
          refl,
          parse_messages-IsEmptyOrParses from_bytes hash raw (rw (quiet, append-nil) at h),
        ),
      ),
      λ (_, (r, same, p)).
          let e : r ≡ raw = cc same in
          rw (quiet, parse_messages-empty from_bytes hash raw (rw e at p)) refl,
    )
    | inr (other, loud) ↦
        (λ h. absurd (loud ((append-eq-nil_iff.0 h).1)), λ (zero, _). absurd (other zero))
  ]
