-- ===== src/Core/Wire/Agreement.antt =====
-- The asynchronous framing agrees with the framing over a slice.
use pulse_narrator.Prelude.{
  ℕ, zero, suc, ◌+◌, ◌≤◌, ◌<◌, ◌≡◌, refl, sym, ◌∙◌, List, [], ◌∷◌, ◌++◌, arith, append_assoc, inl,
  inr,
}
use pulse_narrator.Prelude.{length, take, drop, length-drop}
use pulse_narrator.Prelude.Results
use pulse_narrator.Prelude.Results.{Result, ok, err, map_err, Result-cases}
use pulse_narrator.Prelude.Words.{as_u32, u32_le, get_u32_le}
use pulse_narrator.Prelude.Actions.{Action, pure, lift, on_err, ◌>>=◌, ◌>>◌}
use native.Mathlib.Nat.{zero-add, suc-add}
use native.Mathlib.Decide.{dec_lt}
use pulse_narrator.Core.Wire.{
  WireEvent, WireError, truncated_prefix, truncated_body, json, Serde, encode_wire, decode_wire,
}
use pulse_narrator.Core.Wire.Slices.{decode_wire-eq-ok}
use pulse_narrator.Core.Wire.Frame.{decode_wire_no_prefix, decode_wire_no_body, decode_wire_whole}
use pulse_narrator.Core.Wire.Stream.{
  AsyncRead, ReadsExactly, AsyncWrite, WritesAll, read_frame, write_frame,
}

-- What `read_frame` reports where `decode_wire` reports: it does not know how many bytes it had.
abbrev pub unsized : WireError → WireError
unsized (truncated_prefix need have) = truncated_prefix need 0
unsized (truncated_body claimed have) = truncated_body claimed 0
unsized (json e) = json e

abbrev pub framed : Result WireError (WireEvent × ℕ) → Result WireError WireEvent
framed (ok (event, n)) = ok event
framed (err e) = err (unsized e)

drop-nil : (n : ℕ) → drop {A = ℕ} n [] ≡ []
drop-nil zero = refl
drop-nil (suc n) = refl

drop-drop : (m n : ℕ) (xs : List ℕ) → drop n (drop m xs) ≡ drop (m + n) xs
drop-drop zero n xs = rw zero-add
drop-drop (suc m) n [] = rw suc-add (drop-nil n)
drop-drop (suc m) n (x ∷ xs) = rw suc-add (drop-drop m n xs)

module _ (serde : Serde) (R : AsyncRead) where
  open R use {Reader, read_exact, pending}

  -- The second half of `read_frame`.
  abbrev read_body : ℕ → Action Reader WireError WireEvent
  read_body n = do
    body ← on_err (λ _. truncated_body n 0) (read_exact n)
    lift (map_err json (serde.from_slice body))

  read_frame_two_parts :
      (r : Reader) (got : List ℕ)
      → (read_exact 4 r).0 ≡ ok got
      → read_frame serde R r ≡ read_body (get_u32_le got) (read_exact 4 r).1
  unfolding read_frame
  read_frame_two_parts r got h = rw h

  module _ (law : ReadsExactly R) where
    read_body_short :
        (n : ℕ) (r : Reader) → length (pending r) < n → (read_body n r).0 ≡ err (truncated_body n 0)
    read_body_short n r h = let (e, fails) = law.eof n r h in rw fails

    read_body_whole :
        (n : ℕ) (r : Reader)
        → n ≤ length (pending r)
        → ((read_body n r).0 ≡ map_err json (serde.from_slice (take n (pending r))))
          × (pending (read_body n r).1 ≡ drop n (pending r))
    read_body_whole n r h = let (got, left) = law.filled n r h in (rw got, rw got left)

    read_frame_long :
        (r : Reader)
        → 4 ≤ length (pending r)
        → (read_frame serde R r ≡ read_body (get_u32_le (take 4 (pending r))) (read_exact 4 r).1)
          × (pending (read_exact 4 r).1 ≡ drop 4 (pending r))
    read_frame_long r h =
        let (got, left) = law.filled 4 r h in
        (read_frame_two_parts r (take 4 (pending r)) got, left)

    read_frame_short :
        (r : Reader)
        → length (pending r) < 4
        → (read_frame serde R r).0 ≡ err (truncated_prefix 4 0)
    unfolding read_frame
    read_frame_short r h = let (e, fails) = law.eof 4 r h in rw fails

    framed_whole :
        (body : List ℕ) (n : ℕ)
        → framed (Results.◌>>=◌ (map_err json (serde.from_slice body)) (λ event. ok (event, n)))
          ≡ map_err json (serde.from_slice body)
    framed_whole body n = elim (Result-cases (serde.from_slice body)) [
      | inl (event, e) ↦ rw e
      | inr (x, e) ↦ rw e
    ]

    -- The cases of a stream that holds a prefix.
    agree_long :
        (r : Reader) (n : ℕ)
        → get_u32_le (take 4 (pending r)) ≡ n
        → 4 ≤ length (pending r)
        → (read_body n (read_exact 4 r).1).0 ≡ framed (decode_wire serde (pending r))
    agree_long r n hn h = elim (dec_lt (length (pending r)) (4 + n)) [
      | yes cut ↦
          rw
            (read_body_short n (read_exact 4 r).1
              (rw left (omega (arith, length-drop 4 (pending r)))))
            (rw (decode_wire_no_body serde (pending r) n hn h cut))
      | no whole ↦
          rw
            (
              (read_body_whole n (read_exact 4 r).1
                  (rw left (omega (arith, length-drop 4 (pending r))))).0,
              left,
              decode_wire_whole serde (pending r) (take n (drop 4 (pending r))) n hn (omega arith)
                  refl,
            )
            (sym (framed_whole (take n (drop 4 (pending r))) (4 + n)))
    ]
      where
        left : pending (read_exact 4 r).1 ≡ drop 4 (pending r)
        left = (read_frame_long r h).1

    -- Over a stream of exact reads, `read_frame` answers what `decode_wire` answers on all that the peer sends, but for the
    -- number of bytes that an error says were there.
    pub read_frame-decode_wire :
        (r : Reader) → (read_frame serde R r).0 ≡ framed (decode_wire serde (pending r))
    read_frame-decode_wire r = elim (dec_lt (length (pending r)) 4) [
      | yes short ↦ rw (read_frame_short r short, decode_wire_no_prefix serde (pending r) short)
      | no long ↦ rw ((read_frame_long r (omega arith)).0) (agree_long r _ refl (omega arith))
    ]

    -- Where `decode_wire` finds an event, `read_frame` over exact reads returns it and leaves the stream behind the frame, where `decode_wire` says it ends.
    pub read_frame_position :
        (r : Reader) (event : WireEvent) (n : ℕ)
        → decode_wire serde (pending r) ≡ ok (event, n)
        → ((read_frame serde R r).0 ≡ ok event)
          × (pending (read_frame serde R r).1 ≡ drop n (pending r))
    read_frame_position r event n h =
        let (h4, hn, hl, e) = decode_wire-eq-ok serde (pending r) event n h in
        let (split, left) = read_frame_long r h4 in
        let m : ℕ = get_u32_le (take 4 (pending r)) in
        let enough : m ≤ length (pending (read_exact 4 r).1) =
          rw left (omega (arith, length-drop 4 (pending r))) in
        (
          rw (read_frame-decode_wire r, h),
          rw (split, (read_body_whole m _ enough).1, left, drop-drop, hn),
        )

module _ (serde : Serde) (W : AsyncWrite) (law : WritesAll W) where
  open W use {Writer, write_u32_le, write_all, sent}

  -- The two writes of `write_frame`.
  abbrev write_body : List ℕ → Action Writer WireError (Unit {0})
  write_body body = do
    on_err (λ _. truncated_prefix 4 0) (write_u32_le (as_u32 (length body)))
    on_err (λ _. truncated_body (as_u32 (length body)) 0) (write_all body)
    pure tt

  write_body_sends :
      (body : List ℕ) (w : Writer)
      → (write_body body w).0 ≡ ok tt
      → sent (write_body body w).1 ≡ sent w ++ (u32_le (as_u32 (length body)) ++ body)
  write_body_sends body w h = elim (Result-cases (write_u32_le n w).0) [
    | inl (u, e) ↦ elim (Result-cases (write_all body (write_u32_le n w).1).0) [
      | inl (v, f) ↦ rw (e, f) (law.all_sent body _ f ∙ rw (law.u32_sent n w e, append_assoc))
      | inr (x, f) ↦ absurd (ground arith)
    ]
    | inr (x, e) ↦ absurd (ground arith)
  ]
    where
      n : ℕ
      n = as_u32 (length body)

  -- A `write_frame` that succeeds, over a stream that sends what it writes, has sent the frame of `encode_wire`, and nothing else.
  pub write_frame-encode_wire :
      (event : WireEvent) (w : Writer)
      → (write_frame serde W event w).0 ≡ ok tt
      → (frame : List ℕ) × (encode_wire serde event ≡ ok frame)
        × (sent (write_frame serde W event w).1 ≡ sent w ++ frame)
  unfolding write_frame encode_wire
  write_frame-encode_wire event w h = elim (Result-cases (serde.to_vec event)) [
    | inl (body, e) ↦
        (u32_le (as_u32 (length body)) ++ body, rw e, rw e (write_body_sends body w (rw e at h)))
    | inr (x, e) ↦ absurd (ground arith)
  ]
