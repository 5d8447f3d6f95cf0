-- ===== src/Core/Wire.antt =====
-- crates/pulse-core/src/wire.rs: the envelope, and its length-prefixed frames over a byte slice.
-- The JSON text of an envelope is serde_json's and enters as `Serde`.
pub mod Frame
pub mod Slices
pub mod Stream
pub mod Agreement
use pulse_narrator.Prelude.{ℕ, ◌+◌, ◌-◌, String, List, ◌++◌, Option, none, Bool, ltb, if◌then◌else◌}
use pulse_narrator.Prelude.{length, take, drop, ◌≡◌}
use pulse_narrator.Prelude.Results.{Result, ok, err, map_err, ◌>>=◌}
use pulse_narrator.Prelude.Words.{as_u32, u32_le, get_u32_le}
use pulse_narrator.Core.Event.{SessionId, TurnId}

abbrev pub wire_version : ℕ
wire_version = 1

abbrev pub len_prefix_bytes : ℕ
len_prefix_bytes = 4

-- `serde_json::Error`, of which the code reads only the `Display` text.
pub record JsonError : Type 0 where
  pub message : String

pub data WireError : Type 0 where
  truncated_prefix : ℕ → ℕ → WireError
  truncated_body : ℕ → ℕ → WireError
  json : JsonError → WireError

pub data WireEventKind : Type 0 where
  turn_complete : SessionId → TurnId → Option String → WireEventKind
  attention_hint : SessionId → String → String → Option String → WireEventKind
  hook_degraded : String → Option SessionId → WireEventKind

pub record WireEvent : Type 0 where
  pub schema_version : ℕ
  pub kind : WireEventKind

-- `WireEvent::new`
unfoldable pub new : WireEventKind → WireEvent
new kind = record { schema_version = wire_version; kind = kind }

-- `WireEvent::schema_version_default`
unfoldable pub schema_version_default : ℕ
schema_version_default = wire_version

-- `WireEvent::for_turn_complete`
unfoldable pub for_turn_complete : SessionId → TurnId → ℕ → WireEvent
for_turn_complete session_id turn_id schema_version = record {
  schema_version = schema_version;
  kind = turn_complete session_id turn_id none;
}

-- `serde_json::to_vec` and `serde_json::from_slice` at `WireEvent`. A byte is a number.
pub record Serde : Type 0 where
  pub to_vec : WireEvent → Result JsonError (List ℕ)
  pub from_slice : List ℕ → Result JsonError WireEvent

-- What serde_json documents of a derived pair: the text of a value reads back as the value.
pub record IsLawful (serde : Serde) : Type 0 where
  pub from_slice-to_vec :
      (event : WireEvent) (body : List ℕ)
      → serde.to_vec event ≡ ok body
      → serde.from_slice body ≡ ok event

-- `&bytes[from..to]`
abbrev pub slice : ℕ → ℕ → List ℕ → List ℕ
slice from to bytes = take (to - from) (drop from bytes)

module _ (serde : Serde) where
  unfoldable pub encode_wire : WireEvent → Result WireError (List ℕ)
  encode_wire event = do
    body ← map_err json (serde.to_vec event)
    ok (u32_le (as_u32 (length body)) ++ body)

  unfoldable pub decode_wire : List ℕ → Result WireError (WireEvent × ℕ)
  decode_wire bytes =
      if ltb (length bytes) len_prefix_bytes
      then err (truncated_prefix len_prefix_bytes (length bytes))
      else let body_len = get_u32_le (take len_prefix_bytes bytes) in
        let body_end = len_prefix_bytes + body_len in
        if ltb (length bytes) body_end
        then err (truncated_body body_len (length bytes - len_prefix_bytes))
        else do
          event ← map_err json (serde.from_slice (slice len_prefix_bytes body_end bytes))
          ok (event, body_end)
