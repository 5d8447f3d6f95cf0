-- ===== src/Core/Wire/Stream.antt =====
-- The asynchronous half of crates/pulse-core/src/wire.rs: `read_frame` and `write_frame` over
-- tokio's streams, which enter as interfaces.
use pulse_narrator.Prelude.{ℕ, ◌≤◌, ◌<◌, ◌≡◌, List, ◌++◌}
use pulse_narrator.Prelude.{length, take, drop}
use pulse_narrator.Prelude.Results.{ok, err, map_err}
use pulse_narrator.Prelude.Words.{as_u32, u32_le, get_u32_le}
use pulse_narrator.Prelude.Actions.{Action, pure, lift, on_err, ◌>>=◌, ◌>>◌}
use pulse_narrator.System.{IoError}
use pulse_narrator.Core.Wire.{
  WireEvent, WireError, truncated_prefix, truncated_body, json, Serde, len_prefix_bytes,
}

-- `tokio::io::AsyncRead` with the `read_exact` of its extension trait. `pending` is what the peer
-- sends before it closes; the program cannot see it.
pub record AsyncRead : Type 1 where
  pub Reader : Type 0
  pub read_exact : ℕ → Action Reader IoError (List ℕ)
  pub pending : Reader → List ℕ

-- What tokio documents of `read_exact`: it fills the buffer in order, or fails at the end.
pub record ReadsExactly (R : AsyncRead) : Type 0 where
  pub filled :
      (n : ℕ) (r : R.Reader)
      → n ≤ length (R.pending r)
      → ((R.read_exact n r).0 ≡ ok (take n (R.pending r)))
        × (R.pending (R.read_exact n r).1 ≡ drop n (R.pending r))
  pub eof :
      (n : ℕ) (r : R.Reader)
      → length (R.pending r) < n
      → (e : IoError) × ((R.read_exact n r).0 ≡ err e)

-- `tokio::io::AsyncWrite` with two methods of its extension trait. `sent` is what was written.
pub record AsyncWrite : Type 1 where
  pub Writer : Type 0
  pub write_u32_le : ℕ → Action Writer IoError (Unit {0})
  pub write_all : List ℕ → Action Writer IoError (Unit {0})
  pub sent : Writer → List ℕ

-- What tokio documents of the two: a success has written all of it, in order.
pub record WritesAll (W : AsyncWrite) : Type 0 where
  pub u32_sent :
      (n : ℕ) (w : W.Writer)
      → (W.write_u32_le n w).0 ≡ ok tt
      → W.sent (W.write_u32_le n w).1 ≡ W.sent w ++ u32_le n
  pub all_sent :
      (bytes : List ℕ) (w : W.Writer)
      → (W.write_all bytes w).0 ≡ ok tt
      → W.sent (W.write_all bytes w).1 ≡ W.sent w ++ bytes

module _ (serde : Serde) (R : AsyncRead) where
  unfoldable pub read_frame : Action R.Reader WireError WireEvent
  read_frame = do
    prefix ← on_err (λ _. truncated_prefix len_prefix_bytes 0) (R.read_exact len_prefix_bytes)
    let body_len = get_u32_le prefix
    body ← on_err (λ _. truncated_body body_len 0) (R.read_exact body_len)
    lift (map_err json (serde.from_slice body))

module _ (serde : Serde) (W : AsyncWrite) where
  unfoldable pub write_frame : WireEvent → Action W.Writer WireError (Unit {0})
  write_frame event = do
    body ← lift (map_err json (serde.to_vec event))
    on_err (λ _. truncated_prefix len_prefix_bytes 0) (W.write_u32_le (as_u32 (length body)))
    on_err (λ _. truncated_body (as_u32 (length body)) 0) (W.write_all body)
    pure tt
