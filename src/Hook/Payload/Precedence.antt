-- ===== src/Hook/Payload/Precedence.antt =====
-- Which identity a payload gets, on every branch.
use pulse_narrator.Prelude.{
  String, ◌≡◌, refl, ◌∙◌, ℕ, List, true, false, Option, none, some, inl, inr, Bool-cases,
}
use pulse_narrator.Prelude.Format.{is_blank}
use pulse_narrator.Hook.Payload.{
  ClaudeHookPayload, HookKind, EventIdentity, stable, undeterminable, session_or_unknown,
  synthesized_id, synthesize, derive_with, derive_event,
}

-- An id that is there and is not blank.
abbrev pub usable : Option String → Option String
usable none = none
usable (some s) = elim (is_blank s) [ true ↦ none | false ↦ some s ]

abbrev pub reason_for : Option String → String
reason_for none = "no session_id in payload"
reason_for (some s) = "empty session_id in payload"

-- The pinned precedence: a usable message id, else a usable session id, else nothing.
abbrev pub pinned : (hash : List ℕ → ℕ) → ClaudeHookPayload → List ℕ → HookKind → EventIdentity
pinned hash payload raw kind = elim (usable payload.message_id) [
  | some message_id ↦
      stable message_id (session_or_unknown payload.session_id) payload.transcript_path
  | none ↦ elim (usable payload.session_id) [
    | some sid ↦
        stable (synthesized_id hash sid kind raw) (record { as_str = sid }) payload.transcript_path
    | none ↦ undeterminable (reason_for payload.session_id)
  ]
]

module _ (hash : List ℕ → ℕ) where
  synthesize-usable :
      (o : Option String) (payload : ClaudeHookPayload) (raw : List ℕ) (kind : HookKind)
      → synthesize hash payload raw kind o ≡ elim (usable o) [
        | some sid ↦
            stable
              (synthesized_id hash sid kind raw)
              (record { as_str = sid })
              payload.transcript_path
        | none ↦ undeterminable (reason_for o)
      ]
  unfolding synthesize
  synthesize-usable none payload raw kind = refl
  synthesize-usable (some s) payload raw kind = elim (Bool-cases (is_blank s)) [
    | inl blank ↦ rw (synthesize, blank) refl
    | inr word ↦ rw (synthesize, word) refl
  ]

  -- The identity is derived in the pinned order.
  pub derive_event-pinned :
      (payload : ClaudeHookPayload) (raw : List ℕ) (kind : HookKind)
      → derive_event hash payload raw kind ≡ pinned hash payload raw kind
  unfolding derive_event derive_with
  derive_event-pinned payload raw kind = by_message payload.message_id
    where
      by_message :
          (o : Option String)
          → derive_with hash o payload raw kind ≡ elim (usable o) [
            | some message_id ↦
                stable message_id (session_or_unknown payload.session_id) payload.transcript_path
            | none ↦ elim (usable payload.session_id) [
              | some sid ↦
                  stable
                    (synthesized_id hash sid kind raw)
                    (record { as_str = sid })
                    payload.transcript_path
              | none ↦ undeterminable (reason_for payload.session_id)
            ]
          ]
      by_message none = synthesize-usable payload.session_id payload raw kind
      by_message (some s) = elim (Bool-cases (is_blank s)) [
        | inl blank ↦
            rw (derive_with, blank) (synthesize-usable payload.session_id payload raw kind)
        | inr word ↦ rw (derive_with, word) refl
      ]

  -- Without a usable message id, a usable session id gives the synthesized id.
  pub derive_event_synthesized :
      (payload : ClaudeHookPayload) (raw : List ℕ) (kind : HookKind) (sid : String)
      → usable payload.message_id ≡ none
      → usable payload.session_id ≡ some sid
      → derive_event hash payload raw kind
        ≡ stable
            (synthesized_id hash sid kind raw)
            (record { as_str = sid })
            payload.transcript_path
  derive_event_synthesized payload raw kind sid no_message session =
      derive_event-pinned payload raw kind ∙ rw (pinned, no_message) (rw session refl)
