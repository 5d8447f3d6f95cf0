-- ===== src/Source/Adapter.antt =====
-- crates/pulse-core/src/adapter.rs and crates/pulse-source/src/adapter.rs: the seam of the input
-- sources, and the adapter that emits one event and closes.
pub mod Stream
use pulse_narrator.Prelude.{
  ℕ, ◌<◌, ◌≡◌, String, Bool, true, false, Option, none, some, List, [], ◌∷◌, ◌++◌, length,
}
use pulse_narrator.Prelude.Results.{Result, ok, err}
use pulse_narrator.Core.Event.{TurnId, SourceEvent, turn_complete}

-- `tokio::sync::mpsc` with one sender, and `ReceiverStream`. `next` waits: its answer is `none` when
-- the channel is closed and empty, and it says nothing of an open channel that is empty. The queue
-- and whether the sender is there are for statements alone.
pub record Mpsc : Type 1 where
  pub Channel : Type 0
  pub channel : ℕ → Channel
  pub send : SourceEvent → Channel → Result SourceEvent (Unit {0}) × Channel
  pub drop_sender : Channel → Channel
  pub next : Channel → Option SourceEvent × Channel
  pub queue : Channel → List SourceEvent
  pub capacity : Channel → ℕ
  pub is_open : Channel → Bool

-- What tokio documents of a channel whose receiver is alive.
pub record Delivers (mpsc : Mpsc) : Type 0 where
  pub starts_empty : (n : ℕ) → mpsc.queue (mpsc.channel n) ≡ []
  pub has_room : (n : ℕ) → mpsc.capacity (mpsc.channel n) ≡ n
  pub sent :
      (event : SourceEvent) (c : mpsc.Channel)
      → length (mpsc.queue c) < mpsc.capacity c
      → mpsc.queue (mpsc.send event c).1 ≡ mpsc.queue c ++ (event ∷ [])
  pub dropped :
      (c : mpsc.Channel)
      → (mpsc.queue (mpsc.drop_sender c) ≡ mpsc.queue c)
        × (mpsc.is_open (mpsc.drop_sender c) ≡ false)
  pub next_first :
      (c : mpsc.Channel) (event : SourceEvent) (events : List SourceEvent)
      → mpsc.queue c ≡ event ∷ events
      → ((mpsc.next c).0 ≡ some event)
        × (mpsc.queue (mpsc.next c).1 ≡ events)
        × (mpsc.is_open (mpsc.next c).1 ≡ mpsc.is_open c)
  pub next_end :
      (c : mpsc.Channel) → mpsc.queue c ≡ [] → mpsc.is_open c ≡ false → (mpsc.next c).0 ≡ none

-- `SourceAdapter`, over the adapters of a type.
pub record SourceAdapter (mpsc : Mpsc) (Adapter : Type 0) : Type 0 where
  pub events_of : Adapter → mpsc.Channel

pub record ClaudeCodeAdapter : Type 0 where
  pub transcript_path : String

-- `ClaudeCodeAdapter::new`
unfoldable pub adapter_for : String → ClaudeCodeAdapter
adapter_for transcript_path = record { transcript_path = transcript_path }

module _ (mpsc : Mpsc) where
  open mpsc use {Channel, channel, send, drop_sender}

  -- The result of the send is ignored.
  unfoldable pub events : ClaudeCodeAdapter → Channel
  events adapter =
      let turn_id : TurnId = record { as_str = "turn-complete" } in
      let (result, tx) = send (turn_complete turn_id) (channel 8) in drop_sender tx

  abbrev pub claude_code : SourceAdapter mpsc ClaudeCodeAdapter
  claude_code = record { events_of = events }
