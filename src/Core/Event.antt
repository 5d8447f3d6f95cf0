-- ===== src/Core/Event.antt =====
-- crates/pulse-core/src/event.rs: the neutral vocabulary of sessions, turns and segments. A
-- newtype over `String` is a record whose field is what `as_str` and `Display` give.
use pulse_narrator.Prelude.{String}

pub record SessionId : Type 0 where
  pub as_str : String

pub record TurnId : Type 0 where
  pub as_str : String

pub data Role : Type 0 where
  assistant user system : Role

pub data Kind : Type 0 where
  text code command tool_output patch plan error permission_prompt : Kind

pub record Segment : Type 0 where
  pub role : Role
  pub kind : Kind
  pub text : String

-- `Segment::new`
unfoldable pub new_segment : Role → Kind → String → Segment
new_segment role kind content = record { role = role; kind = kind; text = content }

-- `Segment::default`
abbrev pub default_segment : Segment
default_segment = record { role = assistant; kind = text; text = "" }

pub data AttentionKind : Type 0 where
  permission_prompt idle : AttentionKind

pub record AttentionEvent : Type 0 where
  pub kind : AttentionKind

-- `AttentionEvent::default`
abbrev pub default_attention : AttentionEvent
default_attention = record { kind = AttentionKind.permission_prompt }

pub record Turn : Type 0 where
  pub id : TurnId

pub data SourceEvent : Type 0 where
  segment : Segment → SourceEvent
  attention_event : AttentionEvent → SourceEvent
  turn_complete : TurnId → SourceEvent

pub data ChunkTier : Type 0 where
  read announce announce_pull suppress : ChunkTier

pub record ChunkDecision : Type 0 where
  pub tier : ChunkTier
  pub speakable : String

pub record Utterance : Type 0 where
  pub text : String

-- `Utterance::new`
unfoldable pub new_utterance : String → Utterance
new_utterance content = record { text = content }
