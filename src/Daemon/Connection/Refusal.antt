-- ===== src/Daemon/Connection/Refusal.antt =====
-- Which connections are refused, how, and what a refusal or a repeat leaves as it was.
use pulse_narrator.Prelude.{
  ℕ, ◌≡◌, ◌⊎◌, refl, sym, List, none, some, true, false, ◌==◌, if◌then◌else◌, arith, inl, inr,
}
use pulse_narrator.Prelude.Results.{Result, ok, err, map_err, Result-cases}
use pulse_narrator.System.{Os}
use pulse_narrator.Core.Wire.{WireEvent, WireError, Serde, wire_version, decode_wire}
use pulse_narrator.Core.Wire.Stream.{AsyncRead, ReadsExactly, read_frame}
use pulse_narrator.Core.Wire.Agreement.{framed, read_frame-decode_wire}
use pulse_narrator.Source.Probe.{Json}
use pulse_narrator.Daemon.Error.{DaemonError, schema_version, from_wire}
use pulse_narrator.Daemon.Session.{SessionManager}
use pulse_narrator.Daemon.Connection.{
  Timeout, Completes, timed_out, read_timeout, receive_frame, check_version, on_event,
  handle_connection,
}

check_version-cases :
    (event : WireEvent)
    → (((event.schema_version == wire_version) ≡ true) × (check_version event ≡ ok tt))
      ⊎ (((event.schema_version == wire_version) ≡ false)
          × (check_version event ≡ err (schema_version event.schema_version wire_version)))
unfolding check_version
check_version-cases event = ground arith

-- What a connection answers, by what its peer sends: `decode_wire` on the bytes, then the gate.
abbrev pub verdict_on : Result WireError WireEvent → Result DaemonError WireEvent
verdict_on (err e) = err (from_wire e)
verdict_on (ok event) =
    if event.schema_version == wire_version
    then ok event
    else err (schema_version event.schema_version wire_version)

abbrev pub answer : Result DaemonError WireEvent → Result DaemonError (Unit {0})
answer (ok event) = ok tt
answer (err e) = err e

module _ (serde : Serde) (R : AsyncRead) (T : Timeout R) where
  open R use {Reader, pending}

  pub receive_frame_in_time :
      Completes R T
      → ReadsExactly R
      → (r : Reader) (x : Result WireError WireEvent × Reader)
      → T.timeout read_timeout (read_frame serde R) r ≡ some x
      → receive_frame serde R T r ≡ map_err from_wire (framed (decode_wire serde (pending r)))
  unfolding receive_frame
  receive_frame_in_time completes exact r (ok event, r') h =
      rw
        (
          sym (read_frame-decode_wire serde R exact r),
          completes.in_time read_timeout (read_frame serde R) r (ok event, r') h,
        )
        (rw (receive_frame, h) refl)
  receive_frame_in_time completes exact r (err e, r') h =
      rw
        (
          sym (read_frame-decode_wire serde R exact r),
          completes.in_time read_timeout (read_frame serde R) r (err e, r') h,
        )
        (rw (receive_frame, h) refl)

  pub receive_frame_slow :
      (r : Reader)
      → T.timeout read_timeout (read_frame serde R) r ≡ none
      → receive_frame serde R T r ≡ err timed_out
  unfolding receive_frame
  receive_frame_slow r h = rw (receive_frame, h) refl

  module _ (os : Os) (json : Json) (hash : List ℕ → ℕ) where
    open os use {World}

    -- A connection whose frame is read in time, by exact reads, answers by the bytes alone: what
    -- `decode_wire` makes of all that the peer sends, but for the counts in a truncation, and the
    -- gate. An accepted event is then handled, and a refused connection leaves the sessions and the
    -- world as they were.
    pub handle_connection-answer :
        Completes R T
        → ReadsExactly R
        → (r : Reader) (x : Result WireError WireEvent × Reader) (mgr : SessionManager) (w : World)
        → T.timeout read_timeout (read_frame serde R) r ≡ some x
        → let judged = verdict_on (framed (decode_wire serde (pending r))) in
          handle_connection os json hash serde R T r (mgr, w) ≡ (
            answer judged,
            elim judged [ ok event ↦ on_event os json hash event mgr w | err e ↦ (mgr, w) ],
          )
    unfolding handle_connection
    handle_connection-answer completes exact r x mgr w h =
        elim (Result-cases (framed (decode_wire serde (pending r)))) [
          | inr (e, bad) ↦ rw (receive_frame_in_time completes exact r x h, bad) refl
          | inl (event, good) ↦ elim (check_version-cases event) [
            | inl (same, passed) ↦
                rw (receive_frame_in_time completes exact r x h, good) (rw (passed, same) refl)
            | inr (differ, refused) ↦
                rw (receive_frame_in_time completes exact r x h, good) (rw (refused, differ) refl)
          ]
        ]

    -- A peer that is too slow is refused as a short frame, and nothing happens.
    pub handle_connection_slow :
        (r : Reader) (mgr : SessionManager) (w : World)
        → T.timeout read_timeout (read_frame serde R) r ≡ none
        → handle_connection os json hash serde R T r (mgr, w) ≡ (err timed_out, (mgr, w))
    unfolding handle_connection
    handle_connection_slow r mgr w h = rw (receive_frame_slow r h) refl

    -- A connection that ends with an error, whichever that is, leaves the sessions and the world
    -- as they were.
    pub handle_connection-err :
        (r : Reader) (mgr : SessionManager) (w : World) (e : DaemonError)
        → (handle_connection os json hash serde R T r (mgr, w)).0 ≡ err e
        → (handle_connection os json hash serde R T r (mgr, w)).1 ≡ (mgr, w)
    unfolding handle_connection
    handle_connection-err r mgr w e h = elim (Result-cases (receive_frame serde R T r)) [
      | inr (x, refused) ↦ rw refused refl
      | inl (event, got) ↦ elim (Result-cases (check_version event)) [
        | inr (x, refused) ↦ rw (got, refused) refl
        | inl (u, passed) ↦ absurd (cc (rw (got, passed) at h))
      ]
    ]
