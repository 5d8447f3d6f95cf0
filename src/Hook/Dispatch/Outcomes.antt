-- ===== src/Hook/Dispatch/Outcomes.antt =====
-- What each outcome of a delivery means, and how long a delivery takes.
use pulse_narrator.Prelude.{
  ℕ, ◌+◌, ◌≤◌, ◌≡◌, ◌≢◌, ◌⊎◌, refl, ap, ◌∙◌, String, List, true, false, Option, none, some, arith,
  inl, inr, Bool-cases,
}
use pulse_narrator.Prelude.Results.{Result, ok, err, Result-cases}
use pulse_narrator.System.{Os, IoError}
use pulse_narrator.Core.Wire.{WireEvent, WireError, Serde, encode_wire}
use pulse_narrator.Hook.Dispatch.{
  DeliverOutcome, delivered, socket_absent, connect_failed, write_timed_out, exit_code, Socket,
  Bounded, write_frame_bounded, send, on_connect, deliver,
}

-- The exit code tells the outcome.
pub exit_code_inj : (a b : DeliverOutcome) → exit_code a ≡ exit_code b → a ≡ b
unfolding exit_code
exit_code_inj a b h = ground arith

module _ (os : Os) (socket : Socket os) (serde : Serde) where
  open os use {World, exists, clock}
  open socket use {Stream, connect, write_all, flush, sent}

  -- A run of `deliver` that wrote the frame.
  pub record Sent (event : WireEvent) (path : String) (ct wt : ℕ) (w : World) : Type 0 where
    pub there : exists path w ≡ true
    pub stream : Stream
    pub connected : (connect ct path w).0 ≡ some (ok stream)
    pub frame : List ℕ
    pub encoded : encode_wire serde event ≡ ok frame
    pub wrote : (write_all wt frame stream (connect ct path w).1).0 ≡ some (ok tt)

  write_frame_bounded-delivered :
      (wt : ℕ) (frame : List ℕ) (s : Stream) (w : World)
      → (write_frame_bounded os socket serde wt frame s w).0 ≡ delivered
      → (write_all wt frame s w).0 ≡ some (ok tt)
  unfolding write_frame_bounded
  write_frame_bounded-delivered wt frame s w h = ground arith

  deliver_there :
      (event : WireEvent) (path : String) (ct wt : ℕ) (w : World)
      → exists path w ≡ true
      → deliver os socket serde event path ct wt w
        ≡ on_connect os socket serde wt event (connect ct path w).0 (connect ct path w).1
  unfolding deliver
  deliver_there event path ct wt w there = rw (deliver, there) refl

  deliver_missing :
      (event : WireEvent) (path : String) (ct wt : ℕ) (w : World)
      → exists path w ≡ false
      → deliver os socket serde event path ct wt w ≡ (socket_absent, w)
  unfolding deliver
  deliver_missing event path ct wt w missing = rw (deliver, missing) refl

  send_encoded :
      (event : WireEvent) (wt : ℕ) (s : Stream) (w : World) (frame : List ℕ)
      → encode_wire serde event ≡ ok frame
      → send os socket serde wt event s w ≡ write_frame_bounded os socket serde wt frame s w
  unfolding send
  send_encoded event wt s w frame e = rw (send, e) refl

  send_not_encoded :
      (event : WireEvent) (wt : ℕ) (s : Stream) (w : World) (x : WireError)
      → encode_wire serde event ≡ err x
      → send os socket serde wt event s w ≡ (write_timed_out, w)
  unfolding send
  send_not_encoded event wt s w x e = rw (send, e) refl

  module _ (law : Bounded os socket) where
    write_frame_bounded_clock :
        (wt : ℕ) (frame : List ℕ) (s : Stream) (w : World)
        → clock (write_frame_bounded os socket serde wt frame s w).1 ≤ clock w + wt
    unfolding write_frame_bounded
    write_frame_bounded_clock wt frame s w =
        let (written, s', w') = write_all wt frame s w in
        ground (arith, law.write_clock wt frame s w, law.flush_clock s' w')

    send_clock :
        (event : WireEvent) (wt : ℕ) (s : Stream) (w : World)
        → clock (send os socket serde wt event s w).1 ≤ clock w + wt
    send_clock event wt s w = elim (Result-cases (encode_wire serde event)) [
      | inl (frame, e) ↦
          rw (send_encoded event wt s w frame e) (write_frame_bounded_clock wt frame s w)
      | inr (x, e) ↦ rw (send_not_encoded event wt s w x e) (omega arith)
    ]

    on_connect_clock :
        (event : WireEvent) (wt : ℕ) (o : Option (Result IoError Stream)) (w : World)
        → clock (on_connect os socket serde wt event o w).1 ≤ clock w + wt
    unfolding on_connect
    on_connect_clock event wt (some (ok s)) w = send_clock event wt s w
    on_connect_clock event wt (some (err e)) w = omega arith
    on_connect_clock event wt none w = omega arith

    -- A delivery never blocks longer than its two timeouts together.
    pub deliver_bounded :
        (event : WireEvent) (path : String) (ct wt : ℕ) (w : World)
        → clock (deliver os socket serde event path ct wt w).1 ≤ clock w + ct + wt
    deliver_bounded event path ct wt w = elim (Bool-cases (exists path w)) [
      | inr missing ↦ rw (deliver_missing event path ct wt w missing) (omega arith)
      | inl there ↦ rw (deliver_there event path ct wt w there) (
          omega (
            arith,
            law.connect_clock ct path w,
            on_connect_clock event wt (connect ct path w).0 (connect ct path w).1,
          ))
    ]

  write_frame_bounded-cases :
      (wt : ℕ) (frame : List ℕ) (s : Stream) (w : World)
      → ((write_frame_bounded os socket serde wt frame s w).0 ≡ delivered)
        ⊎ (((write_frame_bounded os socket serde wt frame s w).0 ≡ write_timed_out)
            × ((write_all wt frame s w).0 ≢ some (ok tt)))
  unfolding write_frame_bounded
  write_frame_bounded-cases wt frame s w = ground arith

  send-cases :
      (event : WireEvent) (wt : ℕ) (s : Stream) (w : World)
      → ((frame : List ℕ) × (encode_wire serde event ≡ ok frame)
          × ((write_all wt frame s w).0 ≡ some (ok tt))
          × ((send os socket serde wt event s w).0 ≡ delivered))
        ⊎ (((send os socket serde wt event s w).0 ≡ write_timed_out)
            × ((frame : List ℕ)
                → encode_wire serde event ≡ ok frame
                → (write_all wt frame s w).0 ≢ some (ok tt)))
  send-cases event wt s w = elim (Result-cases (encode_wire serde event)) [
    | inr (x, e) ↦ inr (ap (λ p. p.0) (send_not_encoded event wt s w x e), λ frame e' wrote. cc)
    | inl (frame, e) ↦ elim (write_frame_bounded-cases wt frame s w) [
      | inl done ↦ inl (
        frame,
        e,
        write_frame_bounded-delivered wt frame s w done,
        ap (λ p. p.0) (send_encoded event wt s w frame e) ∙ done,
      )
      | inr (late, not_written) ↦ inr (
        ap (λ p. p.0) (send_encoded event wt s w frame e) ∙ late,
        λ frame' e' wrote. let same : frame' ≡ frame = cc (e, e') in not_written (rw same at wrote),
      )
    ]
  ]

  -- What a bounded connect gives: a stream, or no stream.
  abbrev pub Connected : ℕ → String → World → Type 0
  Connected ct path w = (s : Stream) × ((connect ct path w).0 ≡ some (ok s))

  connect-cases :
      (o : Option (Result IoError Stream))
      → ((s : Stream) × (o ≡ some (ok s)))
        ⊎ (((s : Stream) → o ≢ some (ok s))
            × ((event : WireEvent) (wt : ℕ) (w : World)
                → on_connect os socket serde wt event o w ≡ (connect_failed, w)))
  unfolding on_connect
  connect-cases (some (ok s)) = inl (s, refl)
  connect-cases (some (err e)) = inr (λ s h. cc h, λ event wt w. refl)
  connect-cases none = inr (λ s h. cc h, λ event wt w. refl)

  on_connect_stream :
      (event : WireEvent) (wt : ℕ) (s : Stream) (w : World)
      → on_connect os socket serde wt event (some (ok s)) w ≡ send os socket serde wt event s w
  unfolding on_connect
  on_connect_stream event wt s w = refl

  -- A delivery is one of four: the socket is missing; it is there and no connection comes in time;
  -- the frame is sent; or a connection comes and the frame is not sent, since the event is not encoded
  -- or the write does not succeed in time.
  pub deliver-cases :
      (event : WireEvent) (path : String) (ct wt : ℕ) (w : World)
      → let outcome = (deliver os socket serde event path ct wt w).0 in
        ((outcome ≡ socket_absent) × (exists path w ≡ false))
        ⊎ ((outcome ≡ connect_failed) × (exists path w ≡ true) × ¬ Connected ct path w)
        ⊎ ((outcome ≡ delivered) × Sent event path ct wt w)
        ⊎ ((outcome ≡ write_timed_out)
            × (exists path w ≡ true)
            × Connected ct path w
            × ¬ Sent event path ct wt w)
  deliver-cases event path ct wt w = elim (Bool-cases (exists path w)) [
    | inr missing ↦ inl (ap (λ p. p.0) (deliver_missing event path ct wt w missing), missing)
    | inl there ↦
        let w' = (connect ct path w).1 in
        let run = ap (λ p. p.0) (deliver_there event path ct wt w there) in
        elim (connect-cases (connect ct path w).0) [
          | inr (nothing, failed) ↦
              inr (inl (run ∙ ap (λ p. p.0) (failed event wt w'), there, λ (s, e). nothing s e))
          | inl (s, e) ↦
              let run' =
                run
                ∙ ap (λ o. (on_connect os socket serde wt event o w').0) e
                ∙ ap (λ p. p.0) (on_connect_stream event wt s w') in
              elim (send-cases event wt s w') [
                | inl (frame, encoded, wrote, done) ↦ inr (
                    inr (
                      inl (
                        run' ∙ done,
                        record {
                          there = there;
                          stream = s;
                          connected = e;
                          frame = frame;
                          encoded = encoded;
                          wrote = wrote;
                        },
                      )))
                | inr (late, not_written) ↦ inr (
                    inr (
                      inr (
                        run' ∙ late,
                        there,
                        (s, e),
                        λ sent.
                            let same : sent.stream ≡ s = cc (e, sent.connected) in
                            not_written sent.frame sent.encoded (rw same at sent.wrote),
                      )))
              ]
        ]
  ]

  -- A delivery that succeeds has sent the frame of the event, whole and nothing else.
  pub deliver-delivered :
      Bounded os socket
      → (event : WireEvent) (path : String) (ct wt : ℕ) (w : World)
      → (deliver os socket serde event path ct wt w).0 ≡ delivered
      → (s : Sent event path ct wt w) × (sent
            (write_all wt s.frame s.stream (connect ct path w).1).1
          ≡ s.frame)
  deliver-delivered law event path ct wt w h = elim (deliver-cases event path ct wt w) [
    | inl (o, missing) ↦ absurd (cc (h, o))
    | inr (inl (o, there, nothing)) ↦ absurd (cc (h, o))
    | inr (inr (inl (o, s))) ↦ (
      s,
      law.written wt s.frame s.stream (connect ct path w).1 s.wrote
          ∙ rw (law.fresh ct path w s.stream s.connected) refl,
    )
    | inr (inr (inr (o, there, c, unsent))) ↦ absurd (cc (h, o))
  ]
