-- ===== src/Core/Wire/Frame.antt =====
-- Frames over a byte slice: what `decode_wire` makes of what `encode_wire` wrote.
use pulse_narrator.Prelude.{
  ℕ, ◌+◌, ◌-◌, ◌≤◌, ◌<◌, ◌^◌, ◌≡◌, refl, ap, List, [], ◌∷◌, ◌++◌, arith, append_assoc, inl, inr,
}
use pulse_narrator.Prelude.{length, take, drop, length-append}
use pulse_narrator.Prelude.Results.{ok, err, map_err, ◌>>=◌, Result-cases}
use pulse_narrator.Prelude.Words.{as_u32, u32_le, get_u32_le, get_u32_le-u32_le}
use pulse_narrator.Core.Wire.{
  WireEvent, truncated_prefix, truncated_body, json, Serde, IsLawful, encode_wire, decode_wire,
  len_prefix_bytes,
}

-- The bytes of the prefix and those behind it.
take-u32_le : (n : ℕ) (rest : List ℕ) → take 4 (u32_le n ++ rest) ≡ u32_le n
unfolding u32_le
take-u32_le n rest = refl

drop-u32_le : (n : ℕ) (rest : List ℕ) → drop 4 (u32_le n ++ rest) ≡ rest
unfolding u32_le
drop-u32_le n rest = refl

pub length-u32_le : (n : ℕ) → length (u32_le n) ≡ 4
unfolding u32_le
length-u32_le n = refl

u32_fits : (n : ℕ) → n < 2 ^ 32 → as_u32 n ≡ n
u32_fits n h = omega arith

take-append_self : (xs ys : List ℕ) → take (length xs) (xs ++ ys) ≡ xs
take-append_self [] ys = refl
take-append_self (x ∷ xs) ys = ap (λ t. x ∷ t) (take-append_self xs ys)

prefix_off : (n : ℕ) → len_prefix_bytes + n - len_prefix_bytes ≡ n
prefix_off n = omega arith

pub frame_length :
    (body : List ℕ) → length (u32_le (as_u32 (length body)) ++ body) ≡ 4 + length body
frame_length body = omega (
  arith,
  length-append (u32_le (as_u32 (length body))) body,
  length-u32_le (as_u32 (length body)),
)

module _ (serde : Serde) where
  -- The three ways `decode_wire` goes: no prefix, no body, a whole frame.
  pub decode_wire_no_prefix :
      (bytes : List ℕ)
      → length bytes < 4
      → decode_wire serde bytes ≡ err (truncated_prefix 4 (length bytes))
  unfolding decode_wire
  decode_wire_no_prefix bytes h = ground arith

  pub decode_wire_no_body :
      (bytes : List ℕ) (n : ℕ)
      → get_u32_le (take 4 bytes) ≡ n
      → 4 ≤ length bytes
      → length bytes < 4 + n
      → decode_wire serde bytes ≡ err (truncated_body n (length bytes - 4))
  unfolding decode_wire
  decode_wire_no_body bytes n hn h4 h = ground arith

  pub decode_wire_whole :
      (bytes body : List ℕ) (n : ℕ)
      → get_u32_le (take 4 bytes) ≡ n
      → 4 + n ≤ length bytes
      → take n (drop 4 bytes) ≡ body
      → decode_wire serde bytes
        ≡ (do event ← map_err json (serde.from_slice body); ok (event, 4 + n))
  unfolding decode_wire
  decode_wire_whole bytes body n hn hl hb = rw (hn, prefix_off n, hb) (ground arith)

  prefix :
      (body rest : List ℕ)
      → length body < 2 ^ 32
      → get_u32_le (take 4 (u32_le (as_u32 (length body)) ++ body ++ rest)) ≡ length body
  prefix body rest h =
      rw (append_assoc, take-u32_le, u32_fits _ h) (get_u32_le-u32_le (length body) h)

  fits_in :
      (body rest : List ℕ)
      → 4 + length body ≤ length (u32_le (as_u32 (length body)) ++ body ++ rest)
  fits_in body rest = omega (
    arith,
    length-append (u32_le (as_u32 (length body)) ++ body) rest,
    length-append (u32_le (as_u32 (length body))) body,
    length-u32_le (as_u32 (length body)),
  )

  body_of :
      (body rest : List ℕ)
      → take (length body) (drop 4 (u32_le (as_u32 (length body)) ++ body ++ rest)) ≡ body
  body_of body rest = rw (append_assoc, drop-u32_le) (take-append_self body rest)

  -- The frame of a body that a `u32` can count reads back, whatever stands behind it.
  pub decode_wire-frame :
      (event : WireEvent) (body rest : List ℕ)
      → length body < 2 ^ 32
      → serde.from_slice body ≡ ok event
      → decode_wire serde (u32_le (as_u32 (length body)) ++ body ++ rest)
        ≡ ok (event, 4 + length body)
  decode_wire-frame event body rest fits e =
      rw
        (decode_wire_whole _ body (length body) (prefix body rest fits) (fits_in body rest)
          (body_of body rest))
        (rw e)

  -- What a successful encoding looks like.
  pub encode_wire-eq-ok :
      (event : WireEvent) (frame : List ℕ)
      → encode_wire serde event ≡ ok frame
      → (body : List ℕ) × (serde.to_vec event ≡ ok body)
        × (frame ≡ u32_le (as_u32 (length body)) ++ body)
  unfolding encode_wire
  encode_wire-eq-ok event frame h = elim (Result-cases (serde.to_vec event)) [
    | inl (body, e) ↦ (body, e, ground arith)
    | inr (x, e) ↦ absurd (ground arith)
  ]

  -- The prefix of a frame says how long the frame is.
  pub frame_claims :
      (event : WireEvent) (frame : List ℕ)
      → encode_wire serde event ≡ ok frame
      → length frame < 4 + 2 ^ 32
      → 4 + get_u32_le (take 4 frame) ≡ length frame
  frame_claims event frame h fits =
      let (body, e, split) = encode_wire-eq-ok event frame h in
      let n : length body < 2 ^ 32 = omega (arith, ap length split, frame_length body) in
      rw (split, take-u32_le, frame_length, u32_fits _ n, get_u32_le-u32_le _ n)

module _ (serde : Serde) (lawful : IsLawful serde) where
  -- If the JSON text of an event reads back as it, a frame of at most 2^32 + 3 bytes reads back as its event, whatever stands behind it, and
  -- exactly the frame is consumed.
  pub decode_wire-encode_wire :
      (event : WireEvent) (frame rest : List ℕ)
      → encode_wire serde event ≡ ok frame
      → length frame < 4 + 2 ^ 32
      → decode_wire serde (frame ++ rest) ≡ ok (event, length frame)
  decode_wire-encode_wire event frame rest h fits =
      let (body, e, split) = encode_wire-eq-ok serde event frame h in
      rw (split, frame_length)
        (decode_wire-frame serde event body rest (omega (arith, ap length split, frame_length body))
          (lawful.from_slice-to_vec event body e))
