-- ===== src/Examples/Wire.antt =====
-- The framing, at concrete events.
use pulse_narrator.Prelude.{ℕ, ◌≡◌, refl, List, [], ◌∷◌, ◌++◌, none, arith, length, take}
use pulse_narrator.Prelude.Results.{ok, err}
use pulse_narrator.Prelude.Words.{u32_le}
use pulse_narrator.Core.Wire.{WireEvent, hook_degraded, encode_wire, decode_wire}
use pulse_narrator.Core.Wire.Frame.{decode_wire-encode_wire}
use pulse_narrator.Core.Wire.Slices.{cut_short, decode_wire_cut}
use pulse_narrator.Core.Wire.Stream.{read_frame, write_frame}
use pulse_narrator.Core.Wire.Agreement.{framed, read_frame-decode_wire}
use pulse_narrator.Examples.Streams.{reader, reads_exactly, writer, serde, lawful, the_turn}

-- A turn, a degraded hook, and their frames.
abbrev pub turn_event : WireEvent
turn_event = record { schema_version = 1; kind = the_turn }

abbrev degraded_event : WireEvent
degraded_event = record { schema_version = 1; kind = hook_degraded "x" none }

abbrev pub turn_frame : List ℕ
turn_frame = 2 ∷ 0 ∷ 0 ∷ 0 ∷ 1 ∷ 1 ∷ []

abbrev degraded_frame : List ℕ
degraded_frame = 1 ∷ 0 ∷ 0 ∷ 0 ∷ 1 ∷ []

pub turn_encoded : encode_wire serde turn_event ≡ ok turn_frame
unfolding encode_wire u32_le
turn_encoded = refl

decode_wire-encode_wire_example :
    decode_wire serde (turn_frame ++ degraded_frame) ≡ ok (turn_event, length turn_frame)
decode_wire-encode_wire_example =
    decode_wire-encode_wire serde lawful turn_event turn_frame degraded_frame turn_encoded
      (omega arith)

decode_wire_cut_example :
    decode_wire serde (take 5 turn_frame) ≡ err (cut_short (length turn_frame) 5)
decode_wire_cut_example =
    decode_wire_cut serde turn_event turn_frame 5 turn_encoded (omega arith) (omega arith)

read_frame-decode_wire_example :
    (read_frame serde reader (turn_frame ++ degraded_frame)).0
    ≡ framed (decode_wire serde (turn_frame ++ degraded_frame))
read_frame-decode_wire_example =
    read_frame-decode_wire serde reader reads_exactly (turn_frame ++ degraded_frame)

written : (write_frame serde writer turn_event (9 ∷ [])).0 ≡ ok tt
unfolding write_frame
written = refl
