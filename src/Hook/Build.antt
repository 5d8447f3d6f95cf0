-- ===== src/Hook/Build.antt =====
-- crates/pulse-hook/src/lib.rs: the event of a payload.
pub mod Turns
use pulse_narrator.Prelude.{ℕ, String, List, Bool, true, false, Option, none, some, str_eq}
use pulse_narrator.Core.Event.{SessionId, TurnId}
use pulse_narrator.Core.Wire.{
  WireEvent, WireEventKind, turn_complete, attention_hint, hook_degraded, new,
}
use pulse_narrator.Hook.Payload.{
  ClaudeHookPayload, HookKind, stop, notification, as_label, EventIdentity, stable, undeterminable,
  derive_event,
}

-- `.filter(|s| !s.is_empty())`
unfoldable pub nonempty : Option String → Option String
nonempty none = none
nonempty (some s) = elim (str_eq s "") [ true ↦ none | false ↦ some s ]

-- `.map(SessionId::new)`
unfoldable pub to_session : Option String → Option SessionId
to_session none = none
to_session (some sid) = some (record { as_str = sid })

unfoldable pub stable_kind : HookKind → String → SessionId → Option String → WireEventKind
unfolding as_label
stable_kind stop event_id session_id path =
    turn_complete session_id (record { as_str = event_id }) path
stable_kind notification event_id session_id path =
    attention_hint session_id event_id (as_label notification) path

-- The two arms of the `match` on the identity.
unfoldable pub event_of : EventIdentity → Option String → HookKind → WireEvent
unfolding new
event_of (stable event_id session_id transcript_path) sid hook_kind =
    new (stable_kind hook_kind event_id session_id (nonempty transcript_path))
event_of (undeterminable reason) sid hook_kind =
    new (hook_degraded reason (to_session (nonempty sid)))

module _ (hash : List ℕ → ℕ) where
  unfoldable pub build_event : ClaudeHookPayload → List ℕ → HookKind → WireEvent
  build_event payload raw_payload hook_kind =
      event_of (derive_event hash payload raw_payload hook_kind) payload.session_id hook_kind
