-- ===== src/Hook/Build/Turns.antt =====
-- From a payload to the daemon's verdict: distinct turns are told apart, the same one is not.
use pulse_narrator.Prelude.{
  ℕ, ◌<◌, ◌^◌, String, ◌≡◌, ◌≢◌, ◌⊎◌, refl, List, none, some, inl, inr, length,
}
use pulse_narrator.System.{Os}
use pulse_narrator.Core.Wire.{turn_complete, wire_version, new}
use pulse_narrator.Hook.Payload.{
  ClaudeHookPayload, HookKind, stop, EventIdentity, stable, undeterminable, synthesized_id,
  derive_event,
}
use pulse_narrator.Hook.Payload.Keys.{synthesized_id_inj}
use pulse_narrator.Hook.Payload.Precedence.{usable, derive_event_synthesized}
use pulse_narrator.Hook.Build.{nonempty, stable_kind, event_of, build_event}
use pulse_narrator.Daemon.Session as Session
use pulse_narrator.Daemon.Session.{
  DedupVerdict, duplicate, SessionState, SessionManager, get, record_dedup, record_event,
}
use pulse_narrator.Daemon.Session.Retries.{record_dedup_other, record_dedup_twice}
use pulse_narrator.Daemon.Connection.Loud.{record_event_turn}

-- Every event that the hook builds has the version that the daemon accepts.
pub build_event_version :
    (hash : List ℕ → ℕ) (payload : ClaudeHookPayload) (raw : List ℕ) (kind : HookKind)
    → (build_event hash payload raw kind).schema_version ≡ wire_version
unfolding build_event event_of new
build_event_version hash payload raw kind = of (derive_event hash payload raw kind)
  where
    of : (i : EventIdentity) → (event_of i payload.session_id kind).schema_version ≡ wire_version
    of (stable e s p) = refl
    of (undeterminable r) = refl

module _ (hash : List ℕ → ℕ) (payload : ClaudeHookPayload) (raw : List ℕ) (sid : String) where
  -- A stop hook without a message id of its own becomes a turn under the synthesized id.
  pub build_event_stop :
      usable payload.message_id ≡ none
      → usable payload.session_id ≡ some sid
      → (build_event hash payload raw stop).kind
        ≡ turn_complete
            (record { as_str = sid })
            (record { as_str = synthesized_id hash sid stop raw })
            (nonempty payload.transcript_path)
  unfolding build_event event_of new stable_kind
  build_event_stop no_message session =
      rw (build_event, derive_event_synthesized hash payload raw stop sid no_message session) refl

module _ (os : Os) (hash : List ℕ → ℕ) (sid : String) where
  open os use {World}

  -- The payload of a stop hook that has no message id of its own, in this session.
  abbrev pub Unnamed : ClaudeHookPayload → Type 0
  Unnamed payload = (usable payload.message_id ≡ none) × (usable payload.session_id ≡ some sid)

  stop_recorded :
      (payload : ClaudeHookPayload) (raw : List ℕ) (mgr : SessionManager) (w : World)
      → Unnamed payload
      → record_event os (build_event hash payload raw stop) mgr w ≡ (
        (record_dedup
            (record { as_str = sid })
            (synthesized_id hash sid stop raw)
            (nonempty payload.transcript_path)
            mgr).0,
        (record_dedup
            (record { as_str = sid })
            (synthesized_id hash sid stop raw)
            (nonempty payload.transcript_path)
            mgr).1,
        w,
      )
  stop_recorded payload raw mgr w (no_message, session) =
      record_event_turn os (build_event hash payload raw stop) mgr w _ _ _
        (build_event_stop hash payload raw sid no_message session)

  -- Of two turns in a row of one session, without message ids, whose payloads have different content
  -- hashes or sizes, the second is new, however alike the rest of the payloads is. The hash is a
  -- 64-bit value.
  pub distinct_turns_new :
      ((raw : List ℕ) → hash raw < 2 ^ 64)
      → (payload payload' : ClaudeHookPayload) (raw raw' : List ℕ) (mgr : SessionManager)
        (w w' : World)
      → Unnamed payload
      → Unnamed payload'
      → (hash raw ≢ hash raw') ⊎ (length raw ≢ length raw')
      → (record_event os
          (build_event hash payload' raw' stop)
          (record_event os (build_event hash payload raw stop) mgr w).1
          w').0
        ≡ Session.new
  distinct_turns_new is_u64 payload payload' raw raw' mgr w w' u u' differ =
      let mgr' : SessionManager =
        (record_dedup (record { as_str = sid }) (synthesized_id hash sid stop raw)
          (nonempty payload.transcript_path) mgr).1 in
      rw (stop_recorded payload raw mgr w u) (
        rw (stop_recorded payload' raw' mgr' w' u') (
          record_dedup_other _ _ _ _ _ mgr (λ same.
            apart (synthesized_id_inj hash is_u64 sid sid stop stop raw raw' same) differ)))
    where
      apart :
          (sid ≡ sid) × (stop ≡ stop) × (hash raw ≡ hash raw') × (length raw ≡ length raw')
          → (hash raw ≢ hash raw') ⊎ (length raw ≢ length raw')
          → ⊥
      apart (s, k, h, n) (inl ne) = ne h
      apart (s, k, h, n) (inr ne) = ne n

  -- A stop hook without a message id that is delivered again at once is a duplicate that changes
  -- nothing.
  pub same_turn_duplicate :
      (payload : ClaudeHookPayload) (raw : List ℕ) (mgr : SessionManager) (w w' : World)
      → Unnamed payload
      → let mgr' = (record_event os (build_event hash payload raw stop) mgr w).1 in
        record_event os (build_event hash payload raw stop) mgr' w' ≡ (duplicate, mgr', w')
  same_turn_duplicate payload raw mgr w w' u =
      let mgr' : SessionManager =
        (record_dedup (record { as_str = sid }) (synthesized_id hash sid stop raw)
          (nonempty payload.transcript_path) mgr).1 in
      rw (stop_recorded payload raw mgr w u)
        (rw (stop_recorded payload raw mgr' w' u, record_dedup_twice _ _ _ _ _) refl)
