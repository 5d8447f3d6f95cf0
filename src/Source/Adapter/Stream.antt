-- ===== src/Source/Adapter/Stream.antt =====
-- What a consumer of the adapter's stream gets.
use pulse_narrator.Prelude.{◌≡◌, ap, ◌∙◌, none, some, List, [], ◌∷◌, ◌++◌, false, arith}
use pulse_narrator.Core.Event.{SourceEvent, turn_complete}
use pulse_narrator.Source.Adapter.{Mpsc, Delivers, ClaudeCodeAdapter, events}

module _ (mpsc : Mpsc) where
  open mpsc use {Channel, channel, send, drop_sender, next, queue, is_open}

  -- A stream that yields the events and then ends.
  abbrev pub Yields : List SourceEvent → Channel → Type 0
  Yields [] c = (next c).0 ≡ none
  Yields (event ∷ events) c = ((next c).0 ≡ some event) × Yields events (next c).1

  Yields-queue :
      Delivers mpsc
      → (es : List SourceEvent) (c : Channel) → queue c ≡ es
      → is_open c ≡ false
      → Yields es c
  Yields-queue law [] c holds closed = law.next_end c holds closed
  Yields-queue law (e ∷ es) c holds closed =
      let (first, rest, same) = law.next_first c e es holds in
      (first, Yields-queue law es (next c).1 rest (same ∙ closed))

  -- Over a channel that keeps tokio's promises, the stream of the adapter yields one event, the end
  -- of a turn, and then ends: a consumer's loop always comes to its end.
  pub events-Yields :
      Delivers mpsc
      → (adapter : ClaudeCodeAdapter)
      → Yields (turn_complete (record { as_str = "turn-complete" }) ∷ []) (events mpsc adapter)
  unfolding events
  events-Yields law adapter =
      let one : SourceEvent = turn_complete (record { as_str = "turn-complete" }) in
      let tx : Channel = (send one (channel 8)).1 in
      let (same, closed) = law.dropped tx in
      Yields-queue law (one ∷ []) (drop_sender tx)
        (same
          ∙ law.sent one (channel 8) (rw (law.starts_empty 8, law.has_room 8) (omega arith))
          ∙ ap (λ q. q ++ (one ∷ [])) (law.starts_empty 8))
        closed
