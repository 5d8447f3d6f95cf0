-- ===== src/Daemon/Connection/Arrived.antt =====
-- A frame that arrives whole and in time.
use pulse_narrator.Prelude.{
  ℕ, ◌+◌, ◌^◌, ◌<◌, ◌≡◌, refl, sym, ap, ◌∙◌, List, [], some, length, append-nil,
}
use pulse_narrator.Prelude.Results.{Result, ok}
use pulse_narrator.Core.Wire.{WireEvent, WireError, Serde, IsLawful, encode_wire, decode_wire}
use pulse_narrator.Core.Wire.Stream.{AsyncRead, ReadsExactly, read_frame}
use pulse_narrator.Core.Wire.Frame.{decode_wire-encode_wire}
use pulse_narrator.Daemon.Connection.{Timeout, Completes, read_timeout, receive_frame}
use pulse_narrator.Daemon.Connection.Refusal.{receive_frame_in_time}

module _ (serde : Serde) (lawful : IsLawful serde) (event : WireEvent) (frame : List ℕ)
    (encoded : encode_wire serde event ≡ ok frame) (fits : length frame < 4 + 2 ^ 32) where
  pub decode_wire-frame : decode_wire serde frame ≡ ok (event, length frame)
  decode_wire-frame =
      ap (decode_wire serde) (sym (append-nil frame))
      ∙ decode_wire-encode_wire serde lawful event frame [] encoded fits

  -- A connection that holds the frame of an event and nothing else brings the event.
  pub receive_frame-encode_wire :
      (R : AsyncRead) (T : Timeout R)
      → Completes R T
      → ReadsExactly R
      → (r : R.Reader) (x : Result WireError WireEvent × R.Reader) → R.pending r ≡ frame
      → T.timeout read_timeout (read_frame serde R) r ≡ some x
      → receive_frame serde R T r ≡ ok event
  receive_frame-encode_wire R T completes exact r x holds in_time =
      receive_frame_in_time serde R T completes exact r x in_time
      ∙ rw (holds, decode_wire-frame) refl
