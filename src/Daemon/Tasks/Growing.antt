-- ===== src/Daemon/Tasks/Growing.antt =====
-- Sessions that keep their transcripts, and transcripts that only grow.
use pulse_narrator.Prelude.{
  ℕ, String, ◌≡◌, refl, List, [], ◌∷◌, ◌++◌, Option, none, some, false, Bool-cases, str_eq, inl,
  inr,
}
use pulse_narrator.Prelude.Results.{Result, ok, err}
use pulse_narrator.System.{Os}
use pulse_narrator.Core.Event.{SessionId}
use pulse_narrator.Core.Source.{truncated}
use pulse_narrator.Core.Wire.{
  WireEvent, WireEventKind, turn_complete, attention_hint, hook_degraded,
}
use pulse_narrator.Source.Reader.Growing.{HasBytes, IsAhead}
use pulse_narrator.Daemon.Error.{DaemonError}
use pulse_narrator.Daemon.Session.{DedupVerdict, new, duplicate, SessionManager}
use pulse_narrator.Daemon.Connection.{check_version, last_read_offset_of}
use pulse_narrator.Daemon.Tasks.{
  Task, receiving, recording, fetching, reading, storing, judging, failing, finished, gated,
  received, recorded, fetched,
}

module _ (os : Os) (transcript_of : String → String) where
  open os use {World}

  -- A turn's path, if it has one, is the transcript of its session.
  abbrev pub IsHomePath : SessionId → Option String → Type 0
  IsHomePath sid none = Unit
  IsHomePath sid (some path) = str_eq path "" ≡ false → path ≡ transcript_of sid.as_str

  abbrev pub IsHome : WireEventKind → Type 0
  IsHome (turn_complete sid tid path) = IsHomePath sid path
  IsHome (attention_hint sid event_id raw_kind path) = Unit
  IsHome (hook_degraded reason sid) = Unit

  -- The offsets of the sessions lie within their transcripts.
  abbrev pub AreAhead : SessionManager → World → Type 0
  AreAhead mgr w =
      (sid : SessionId) → IsAhead os (last_read_offset_of sid mgr) (transcript_of sid.as_str) w

  -- What a handler carries: events and paths of such sessions, offsets within their transcripts, and
  -- no verdict of a cut file.
  abbrev pub Fits :
      {Stream : Type 0} → (Stream → Result DaemonError WireEvent) → World → Task Stream → Type 0
  Fits take_frame w (receiving stream) =
      (event : WireEvent) → take_frame stream ≡ ok event → IsHome event.kind
  Fits take_frame w (recording event) = IsHome event.kind
  Fits take_frame w (fetching sid path) = IsHomePath sid path
  Fits take_frame w (reading sid path last) =
      (path ≡ transcript_of sid.as_str) × IsAhead os last path w
  Fits take_frame w (storing sid probe turn) =
      (¬ (turn.verdict ≡ truncated)) × HasBytes os (transcript_of sid.as_str) turn.read_offset w
  Fits take_frame w (judging probe turn) = ¬ (turn.verdict ≡ truncated)
  Fits take_frame w (failing e) = Unit
  Fits take_frame w (finished r) = Unit

  abbrev pub AllFit :
      {Stream : Type 0}
      → (Stream → Result DaemonError WireEvent)
      → World
      → List (Task Stream)
      → Type 0
  AllFit take_frame w [] = Unit
  AllFit take_frame w (task ∷ tasks) = Fits take_frame w task × AllFit take_frame w tasks

  -- A change of the world that lets no transcript shrink.
  abbrev pub Grows : World → World → Type 0
  Grows w w' = (path : String) (n : ℕ) → HasBytes os path n w → HasBytes os path n w'

  pub Grows-IsAhead :
      (w w' : World) (last : Option ℕ) (path : String)
      → Grows w w'
      → IsAhead os last path w
      → IsAhead os last path w'
  Grows-IsAhead w w' none path g h = tt
  Grows-IsAhead w w' (some n) path g h = g path n h

  module _ {Stream : Type 0} (take_frame : Stream → Result DaemonError WireEvent) where
    pub Grows-Fits :
        (w w' : World) (task : Task Stream)
        → Grows w w'
        → Fits take_frame w task
        → Fits take_frame w' task
    Grows-Fits w w' (receiving stream) g h = h
    Grows-Fits w w' (recording event) g h = h
    Grows-Fits w w' (fetching sid path) g h = h
    Grows-Fits w w' (reading sid path last) g (home, ahead) =
        (home, Grows-IsAhead w w' last path g ahead)
    Grows-Fits w w' (storing sid probe turn) g (whole, bytes) = (whole, g _ _ bytes)
    Grows-Fits w w' (judging probe turn) g h = h
    Grows-Fits w w' (failing e) g h = tt
    Grows-Fits w w' (finished r) g h = tt

    pub Grows-AllFit :
        (w w' : World) (tasks : List (Task Stream))
        → Grows w w'
        → AllFit take_frame w tasks
        → AllFit take_frame w' tasks
    Grows-AllFit w w' [] g h = tt
    Grows-AllFit w w' (task ∷ tasks) g (h, hs) =
        (Grows-Fits w w' task g h, Grows-AllFit w w' tasks g hs)

    pub AllFit-accept :
        (w : World) (tasks : List (Task Stream)) (stream : Stream)
        → Fits take_frame w (receiving stream)
        → AllFit take_frame w tasks
        → AllFit take_frame w (tasks ++ (receiving stream ∷ []))
    AllFit-accept w [] stream one h = (one, tt)
    AllFit-accept w (task ∷ tasks) stream one (h, hs) = (h, AllFit-accept w tasks stream one hs)

    gated-Fits :
        (w : World) (event : WireEvent) (r : Result DaemonError (Unit {0}))
        → IsHome event.kind
        → Fits take_frame w (gated event r)
    unfolding gated
    gated-Fits w event (ok u) h = h
    gated-Fits w event (err e) h = tt

    pub received-Fits :
        (w : World) (r : Result DaemonError WireEvent)
        → ((event : WireEvent) → r ≡ ok event → IsHome event.kind)
        → Fits take_frame w (received r)
    unfolding received
    received-Fits w (ok event) h = gated-Fits w event (check_version event) (h event refl)
    received-Fits w (err e) h = tt

    pub recorded-Fits :
        (w : World) (v : DedupVerdict) (kind : WireEventKind)
        → IsHome kind
        → Fits take_frame w (recorded v kind)
    unfolding recorded
    recorded-Fits w duplicate kind h = tt
    recorded-Fits w new (turn_complete sid tid path) h = h
    recorded-Fits w new (attention_hint sid event_id raw_kind path) h = tt
    recorded-Fits w new (hook_degraded reason sid) h = tt

    pub fetched-Fits :
        (w : World) (sid : SessionId) (path : Option String) (last : Option ℕ)
        → IsHomePath sid path
        → IsAhead os last (transcript_of sid.as_str) w
        → Fits take_frame w (fetched sid path last)
    unfolding fetched
    fetched-Fits w sid none last home ahead = tt
    fetched-Fits w sid (some path) last home ahead = elim (Bool-cases (str_eq path "")) [
      | inl nothing ↦ rw (fetched, nothing) tt
      | inr there ↦ rw (fetched, there) (home there, rw (home there) ahead)
    ]
