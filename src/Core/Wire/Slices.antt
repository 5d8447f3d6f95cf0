-- ===== src/Core/Wire/Slices.antt =====
-- What `decode_wire` makes of any slice: bounds, more input, and cut frames.
use pulse_narrator.Prelude.{
  ℕ, zero, suc, ◌+◌, ◌-◌, ◌≤◌, ◌<◌, ◌^◌, ◌≡◌, refl, ap, List, [], ◌∷◌, ◌++◌, arith, ltb,
  if◌then◌else◌,
}
use pulse_narrator.Prelude.{
  length, take, drop, length-append, take-append, drop-append, length-take, length-drop,
}
use pulse_narrator.Prelude.Results.{ok, err}
use pulse_narrator.Prelude.Words.{get_u32_le}
use pulse_narrator.Core.Wire.{
  WireEvent, WireError, truncated_prefix, truncated_body, Serde, encode_wire, decode_wire, slice,
}
use pulse_narrator.Core.Wire.Frame.{frame_claims}

module _ (serde : Serde) where
  -- A success says that the slice holds a whole frame, whose body is the event.
  pub decode_wire-eq-ok :
      (bytes : List ℕ) (event : WireEvent) (n : ℕ)
      → decode_wire serde bytes ≡ ok (event, n)
      → (4 ≤ length bytes)
        × (n ≡ 4 + get_u32_le (take 4 bytes))
        × (n ≤ length bytes)
        × (serde.from_slice (slice 4 n bytes) ≡ ok event)
  unfolding decode_wire
  decode_wire-eq-ok bytes event n h = ground arith

  -- What is consumed is a prefix and a body, and no more than there is.
  pub decode_wire_bounds :
      (bytes : List ℕ) (event : WireEvent) (n : ℕ)
      → decode_wire serde bytes ≡ ok (event, n)
      → (4 ≤ n) × (n ≤ length bytes)
  decode_wire_bounds bytes event n h = omega (arith, decode_wire-eq-ok bytes event n h)

  decode_wire_of_parts :
      (bytes : List ℕ) (event : WireEvent) (n : ℕ)
      → 4 ≤ length bytes
      → n ≡ 4 + get_u32_le (take 4 bytes)
      → n ≤ length bytes
      → serde.from_slice (slice 4 n bytes) ≡ ok event
      → decode_wire serde bytes ≡ ok (event, n)
  unfolding decode_wire
  decode_wire_of_parts bytes event n h4 hn hl e = ground arith

  slice-append :
      (n : ℕ) (bytes more : List ℕ)
      → 4 ≤ n
      → n ≤ length bytes
      → slice 4 n (bytes ++ more) ≡ slice 4 n bytes
  slice-append n bytes more h4 h =
      rw (drop-append 4 bytes more (omega arith))
        (take-append (n - 4) (drop 4 bytes) more (omega (arith, length-drop 4 bytes)))

  -- Bytes that arrive later change neither the event nor what is consumed.
  pub decode_wire-append :
      (bytes more : List ℕ) (event : WireEvent) (n : ℕ)
      → decode_wire serde bytes ≡ ok (event, n)
      → decode_wire serde (bytes ++ more) ≡ ok (event, n)
  decode_wire-append bytes more event n h =
      let (h4, hn, hl, e) = decode_wire-eq-ok bytes event n h in
      decode_wire_of_parts (bytes ++ more) event n (omega (arith, length-append bytes more))
        (rw (take-append 4 bytes more h4) hn) (omega (arith, length-append bytes more))
        (rw (slice-append n bytes more (omega arith) hl) e)

-- The error of a slice that is cut `k` bytes into a frame of `whole` bytes.
abbrev pub cut_short : ℕ → ℕ → WireError
cut_short whole k = if ltb k 4 then truncated_prefix 4 k else truncated_body (whole - 4) (k - 4)

module _ (serde : Serde) where
  decode_wire_short :
      (bytes : List ℕ) (whole : ℕ)
      → length bytes < whole
      → (4 ≤ length bytes → 4 + get_u32_le (take 4 bytes) ≡ whole)
      → decode_wire serde bytes ≡ err (cut_short whole (length bytes))
  unfolding decode_wire
  decode_wire_short bytes whole short counts = ground arith

  take-take : (n k : ℕ) (bytes : List ℕ) → n ≤ k → take n (take k bytes) ≡ take n bytes
  take-take zero k bytes h = refl
  take-take (suc n) zero bytes h = absurd (omega arith)
  take-take (suc n) (suc k) [] h = refl
  take-take (suc n) (suc k) (x ∷ bytes) h = ap (λ t. x ∷ t) (take-take n k bytes (omega arith))

  -- Every proper prefix of a frame of at most 2^32 + 3 bytes is reported as truncated, with what was there and what was
  -- claimed: never as an event, and never as bad JSON.
  pub decode_wire_cut :
      (event : WireEvent) (frame : List ℕ) (k : ℕ)
      → encode_wire serde event ≡ ok frame
      → length frame < 4 + 2 ^ 32
      → k < length frame
      → decode_wire serde (take k frame) ≡ err (cut_short (length frame) k)
  decode_wire_cut event frame k h fits cut =
      rw (k_long) at
        (decode_wire_short (take k frame) (length frame) (omega (arith, k_long)) counts)
    where
      k_long : length (take k frame) ≡ k
      k_long = omega (arith, length-take k frame)

      counts : 4 ≤ length (take k frame) → 4 + get_u32_le (take 4 (take k frame)) ≡ length frame
      counts long =
          rw (take-take 4 k frame (omega (arith, k_long))) (frame_claims serde event frame h fits)

-- What a caller sees that feeds the tail behind each frame back in, until the bytes are used up.
pub data Decodes (serde : Serde) : List ℕ → List WireEvent → Type 0 where
  done : Decodes serde [] []
  next :
      {bytes : List ℕ} {events : List WireEvent} (event : WireEvent) (n : ℕ)
      → decode_wire serde bytes ≡ ok (event, n)
      → Decodes serde (drop n bytes) events
      → Decodes serde bytes (event ∷ events)

-- The frames of the events, one behind the other; each at most 2^32 + 3 bytes long.
pub data Frames (serde : Serde) : List WireEvent → List ℕ → Type 0 where
  none_left : Frames serde [] []
  frame_first :
      {events : List WireEvent} {bytes : List ℕ} (event : WireEvent) (frame : List ℕ)
      → encode_wire serde event ≡ ok frame
      → length frame < 4 + 2 ^ 32
      → Frames serde events bytes
      → Frames serde (event ∷ events) (frame ++ bytes)
