-- ===== src/UnitTests/Hook.antt =====
-- crates/pulse-hook/src: the tests of dispatch.rs, and those of payload.rs that derive an identity. How
-- serde_json reads a payload, and the standard hasher, are arguments.
use pulse_narrator.Prelude.{
  ℕ, ◌^◌, ◌<◌, ◌≢◌, String, List, [], ◌∷◌, Bool, true, false, ◌&&◌, not, none, some, str_eq,
  str_eq-false, ◌==◌, eq_refl, ◌≡◌, refl,
}
use pulse_narrator.Prelude.Results.{Result, ok, err}
use pulse_narrator.Prelude.Format.{is_blank, is_whitespace}
use pulse_narrator.Core.Wire.{JsonError}
use pulse_narrator.Hook.Payload.{
  ClaudeHookPayload, HookKind, EventIdentity, stable, undeterminable, payload_content_hash,
  synthesized_id, synthesize, derive_with, derive_event,
}
use pulse_narrator.Hook.Payload.Keys.{synthesized_id_inj}
use pulse_narrator.Hook.Dispatch.{
  delivered, socket_absent, connect_failed, write_timed_out, exit_code,
}
use Prim.Native.Char.{code}
use pulse_narrator.Daemon.Main.{strip_prefix}
use pulse_narrator.UnitTests.Source.{contains}

abbrev outcome_exit_codes_match_contract_table : Bool
outcome_exit_codes_match_contract_table =
    (exit_code delivered == 0)
    && (exit_code socket_absent == 2)
    && (exit_code connect_failed == 3)
    && (exit_code write_timed_out == 4)

dispatch_test_passes : outcome_exit_codes_match_contract_table ≡ true
unfolding exit_code
dispatch_test_passes = refl

-- The bytes of a text in ASCII.
abbrev bytes_of : String → List ℕ
bytes_of String.[] = []
bytes_of (String.◌∷◌ c s) = code c ∷ bytes_of s

abbrev raw_named : List ℕ
raw_named = bytes_of "{\"message_id\":\"mid-42\",\"session_id\":\"s1\"}"

abbrev raw_a : List ℕ
raw_a = bytes_of "{\"session_id\":\"s1\",\"content\":\"turn A\"}"

abbrev raw_b : List ℕ
raw_b = bytes_of "{\"session_id\":\"s1\",\"content\":\"turn B\"}"

abbrev raw_lost : List ℕ
raw_lost = bytes_of "{\"transcript_path\":\"/tmp/x\",\"message_id\":\"   \"}"

abbrev id_is : String → EventIdentity → Bool
id_is expected (stable event_id session_id path) = str_eq event_id expected
id_is expected (undeterminable reason) = false

abbrev ids_differ : EventIdentity → EventIdentity → Bool
ids_differ (stable ea s p) (stable eb s' p') = not (str_eq ea eb)
ids_differ _ _ = false

abbrev reason_contains : String → EventIdentity → Bool
reason_contains part (stable event_id session_id path) = false
reason_contains part (undeterminable reason) = contains reason part

module _ (from_bytes : List ℕ → Result JsonError ClaudeHookPayload) (hash : List ℕ → ℕ) where
  -- A test goes on with what was parsed, and fails on an error.
  abbrev expect : Result JsonError ClaudeHookPayload → (ClaudeHookPayload → Bool) → Bool
  expect (ok p) test = test p
  expect (err e) test = false

  abbrev message_id_is_preferred_when_present : Bool
  message_id_is_preferred_when_present =
      expect (from_bytes raw_named)
        (λ p. id_is "mid-42" (derive_event hash p raw_named HookKind.stop))

  abbrev synthesized_id_uses_content_hash_so_distinct_content_diverges : Bool
  synthesized_id_uses_content_hash_so_distinct_content_diverges = expect (from_bytes raw_a) (λ p_a.
      expect (from_bytes raw_b) (λ p_b.
        ids_differ (derive_event hash p_a raw_a HookKind.stop)
          (derive_event hash p_b raw_b HookKind.stop)))

  abbrev no_session_id_yields_undeterminable : Bool
  no_session_id_yields_undeterminable =
      expect (from_bytes raw_lost)
        (λ p. reason_contains "session_id" (derive_event hash p raw_lost HookKind.stop))

  abbrev content_hash_is_deterministic_for_same_bytes : Bool
  content_hash_is_deterministic_for_same_bytes =
      str_eq (payload_content_hash hash (bytes_of "some bytes"))
        (payload_content_hash hash (bytes_of "some bytes"))

  -- The test of two contents needs that the hasher tells them apart, which no 64-bit hash can promise.
  payload_tests_pass :
      ((raw : List ℕ) → hash raw < 2 ^ 64)
      → hash raw_a ≢ hash raw_b
      → from_bytes raw_named
        ≡ ok (record { message_id = some "mid-42"; session_id = some "s1"; transcript_path = none })
      → from_bytes raw_a
        ≡ ok (record { message_id = none; session_id = some "s1"; transcript_path = none })
      → from_bytes raw_b
        ≡ ok (record { message_id = none; session_id = some "s1"; transcript_path = none })
      → from_bytes raw_lost
        ≡ ok
            (record { message_id = some "   "; session_id = none; transcript_path = some "/tmp/x" })
      → (message_id_is_preferred_when_present ≡ true)
        × (synthesized_id_uses_content_hash_so_distinct_content_diverges ≡ true)
        × (no_session_id_yields_undeterminable ≡ true)
        × (content_hash_is_deterministic_for_same_bytes ≡ true)
  unfolding derive_event derive_with synthesize is_blank is_whitespace strip_prefix
  payload_tests_pass is_u64 apart named a b lost =
      let differ : str_eq (synthesized_id hash "s1" HookKind.stop raw_a)
            (synthesized_id hash "s1" HookKind.stop raw_b)
          ≡ false =
        str_eq-false _ _ (λ same. apart (
          (synthesized_id_inj hash is_u64 "s1" "s1" HookKind.stop HookKind.stop raw_a raw_b
            same).2)) in
      (rw named refl, rw (a, b) (rw differ refl), rw lost refl, eq_refl _)
