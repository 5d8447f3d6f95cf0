-- ===== src/Hook/Payload.antt =====
-- crates/pulse-hook/src/payload.rs: the hook's payload, and the identity of its event.
pub mod Keys
pub mod Precedence
use pulse_narrator.Prelude.{ℕ, String, ◌<>◌, List, Bool, true, false, Option, none, some, length}
use pulse_narrator.Prelude.Format.{hex, decimal, is_blank}
use pulse_narrator.Core.Event.{SessionId}

pub record ClaudeHookPayload : Type 0 where
  pub message_id : Option String
  pub session_id : Option String
  pub transcript_path : Option String

-- `ClaudeHookPayload::default`
abbrev pub default_payload : ClaudeHookPayload
default_payload = record { message_id = none; session_id = none; transcript_path = none }

pub data HookKind : Type 0 where
  stop notification : HookKind

unfoldable pub as_label : HookKind → String
as_label stop = "stop"
as_label notification = "notification"

pub data EventIdentity : Type 0 where
  stable : String → SessionId → Option String → EventIdentity
  undeterminable : String → EventIdentity

-- `payload.session_id.clone().map(SessionId::new).unwrap_or_else(...)`
unfoldable pub session_or_unknown : Option String → SessionId
session_or_unknown none = record { as_str = "unknown" }
session_or_unknown (some sid) = record { as_str = sid }

-- `hash` is the 64-bit value that `DefaultHasher` finishes with after hashing a byte slice.
module _ (hash : List ℕ → ℕ) where
  unfoldable pub payload_content_hash : List ℕ → String
  payload_content_hash raw_payload = hex 16 (hash raw_payload)

  -- The `format!` of the synthesized id.
  unfoldable pub synthesized_id : String → HookKind → List ℕ → String
  synthesized_id session_id hook_kind raw_payload =
      session_id
      <> (":"
          <> (as_label hook_kind
              <> (":"
                  <> (payload_content_hash raw_payload
                      <> (":" <> (decimal (length raw_payload) <> (":" <> as_label hook_kind)))))))

  -- Cases (2) and (3), on the session id.
  unfoldable pub synthesize : ClaudeHookPayload → List ℕ → HookKind → Option String → EventIdentity
  synthesize payload raw_payload hook_kind none = undeterminable "no session_id in payload"
  synthesize payload raw_payload hook_kind (some session_id) = elim (is_blank session_id) [
    | true ↦ undeterminable "empty session_id in payload"
    | false ↦
        stable (synthesized_id session_id hook_kind raw_payload) (record { as_str = session_id })
          payload.transcript_path
  ]

  -- Case (1) first, on the message id.
  unfoldable pub derive_with : Option String → ClaudeHookPayload → List ℕ → HookKind → EventIdentity
  derive_with none payload raw_payload hook_kind =
      synthesize payload raw_payload hook_kind payload.session_id
  derive_with (some message_id) payload raw_payload hook_kind = elim (is_blank message_id) [
    | true ↦ synthesize payload raw_payload hook_kind payload.session_id
    | false ↦ stable message_id (session_or_unknown payload.session_id) payload.transcript_path
  ]

  unfoldable pub derive_event : ClaudeHookPayload → List ℕ → HookKind → EventIdentity
  derive_event payload raw_payload hook_kind =
      derive_with payload.message_id payload raw_payload hook_kind
