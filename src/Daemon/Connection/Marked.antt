-- ===== src/Daemon/Connection/Marked.antt =====
-- The DEGRADED marker that a complaint leaves.
use pulse_narrator.Prelude.{ℕ, String, ◌≡◌, refl, ◌⊎◌, inl, inr, Option, none, some, arith}
use pulse_narrator.Prelude.Results.{ok}
use pulse_narrator.System.{Os, WritesFiles}
use pulse_narrator.Core.Wire.{
  WireEvent, WireEventKind, turn_complete, attention_hint, hook_degraded,
}
use pulse_narrator.Daemon.Degraded.{marker_path, mark_degraded}
use pulse_narrator.Daemon.Degraded.Marker.{mark_degraded_text}
use pulse_narrator.Daemon.Session.{SessionManager, record_event}
use pulse_narrator.Daemon.Connection.Loud.{complain}

-- One for a complaint.
abbrev pub complaints : Option String → ℕ
complaints none = 0
complaints (some reason) = 1

abbrev pub degrades : WireEventKind → ℕ
degrades (turn_complete s tid path) = 0
degrades (attention_hint s event_id raw_kind path) = 0
degrades (hook_degraded reason s) = 1

module _ (os : Os) (path : String) where
  open os use {World, text_at}

  -- The marker is there.
  abbrev pub IsMarked : World → Type 0
  IsMarked w = (text : String) × (text_at path w ≡ some text)

  module _ (files : WritesFiles os) (has_home : (w : World) → marker_path os w ≡ ok path)
      (writable : (reason : String) (w : World) → (mark_degraded os reason w).0 ≡ ok tt) where
    pub mark_degraded-IsMarked :
        (reason : String) (w : World) → IsMarked (mark_degraded os reason w).1
    mark_degraded-IsMarked reason w =
        let (marker, here, text) = mark_degraded_text os files reason w (writable reason w) in
        let same : marker ≡ path = cc (here, has_home w) in (reason, rw same at text)

    pub complain-IsMarked :
        (o : Option String) (w : World) → (complaints o ≡ 0) ⊎ IsMarked (complain os o w)
    complain-IsMarked none w = inl refl
    complain-IsMarked (some reason) w = inr (mark_degraded-IsMarked reason w)

    pub complain-keeps : (o : Option String) (w : World) → IsMarked w → IsMarked (complain os o w)
    complain-keeps none w h = h
    complain-keeps (some reason) w h = mark_degraded-IsMarked reason w

    -- The recording of an event, in the world that it leaves.
    pub record_event-IsMarked :
        (event : WireEvent) (mgr : SessionManager) (w : World)
        → (degrades event.kind ≡ 0) ⊎ IsMarked (record_event os event mgr w).2
    unfolding record_event
    record_event-IsMarked event mgr w = by_kind event.kind
      where
        by_kind :
            (kind : WireEventKind)
            → (degrades kind ≡ 0)
              ⊎ IsMarked
                  (record_event os
                    (record { schema_version = event.schema_version; kind = kind })
                    mgr
                    w).2
        by_kind (turn_complete s tid p) = inl refl
        by_kind (attention_hint s event_id raw_kind p) = inl refl
        by_kind (hook_degraded reason s) = inr (mark_degraded-IsMarked reason w)

    pub record_event-keeps :
        (event : WireEvent) (mgr : SessionManager) (w : World)
        → IsMarked w
        → IsMarked (record_event os event mgr w).2
    unfolding record_event
    record_event-keeps event mgr w h = by_kind event.kind
      where
        by_kind :
            (kind : WireEventKind)
            → IsMarked
                (record_event os
                  (record { schema_version = event.schema_version; kind = kind })
                  mgr
                  w).2
        by_kind (turn_complete s tid p) = h
        by_kind (attention_hint s event_id raw_kind p) = h
        by_kind (hook_degraded reason s) = mark_degraded-IsMarked reason w

module _ (os : Os) where
  open os use {World}

  -- Without a complaint nothing is marked.
  pub complain-none : (o : Option String) (w : World) → complaints o ≡ 0 → complain os o w ≡ w
  complain-none none w h = refl
  complain-none (some reason) w h = absurd (omega arith)

  pub record_event-none :
      (event : WireEvent) (mgr : SessionManager) (w : World)
      → degrades event.kind ≡ 0
      → (record_event os event mgr w).2 ≡ w
  unfolding record_event
  record_event-none event mgr w = by_kind event.kind
    where
      by_kind :
          (kind : WireEventKind)
          → degrades kind ≡ 0
          → (record_event os
              (record { schema_version = event.schema_version; kind = kind })
              mgr
              w).2
            ≡ w
      by_kind (turn_complete s tid p) h = refl
      by_kind (attention_hint s event_id raw_kind p) h = refl
      by_kind (hook_degraded reason s) h = absurd (omega arith)
