-- ===== src/Source/Settle/Quiet.antt =====
-- The settle window on a file that is written to at first and then left alone.
use pulse_narrator.Prelude.{ℕ, ◌+◌, ◌*◌, ◌≤◌, ◌<◌, String, ◌≡◌, ◌≢◌, refl, arith, none}
use pulse_narrator.Prelude.Results.{ok}
use pulse_narrator.System.{Os, Sleeps}
use pulse_narrator.Source.Settle.{
  stable, nap, file_size, settle, poll_interval_for_size, poll_interval_floor,
}
use pulse_narrator.Source.Settle.Idle.{Asleep, here, nap_on}
use pulse_narrator.Source.Settle.Rounds.{
  Outcome, Settles, settle_start, no_time, no_file, third_equal, equal_late, equal, grown_late,
  grown,
}
use native.Mathlib.Decide.{dec_lt}
use native.Mathlib.Nat.{mul-le-mul_right}

-- A larger file is polled less often.
poll_interval_mono :
    (small large : ℕ) → small ≤ large → poll_interval_for_size small ≤ poll_interval_for_size large
unfolding poll_interval_for_size
poll_interval_mono small large h = omega arith

rounds-le : (count interval : ℕ) → count < 3 → (count + 1) * interval ≤ 3 * interval
rounds-le count interval few = mul-le-mul_right interval (omega arith)

module _ (os : Os) (path : String) (size quiet : ℕ) (start : os.World) where
  open os use {World, clock}

  -- The file is there and at most this size for as long as one sleeps, and has exactly this size
  -- once so much time has gone by.
  abbrev pub GoesQuiet : Type 0
  GoesQuiet =
      (v : World)
      → Asleep os start v
      → (now : ℕ) × (file_size os path v ≡ ok now)
        × (now ≤ size)
        × (clock start + quiet ≤ clock v → now ≡ size)

module _ (os : Os) (sleeps : Sleeps os) (path : String) (bound size quiet : ℕ) (start : os.World)
    (quiets : GoesQuiet os path size quiet start)
    (in_time : quiet + 3 * poll_interval_for_size size ≤ bound) where
  open os use {World, clock, sleep}

  abbrev interval : ℕ
  interval = poll_interval_for_size size

  -- Where the window is: each round that sees the last size again makes up for its nap.
  record Progress (current count elapsed : ℕ) (w : World) : Type 0 where
    asleep : Asleep os start w
    on_time : clock w ≡ clock start + elapsed
    saw : file_size os path w ≡ ok current
    few : count < 3
    soon : elapsed < quiet + (count + 1) * interval

  -- A size that is seen is at most the last one, and that one if it is late enough.
  seen_size :
      (v : World) (now : ℕ)
      → Asleep os start v
      → file_size os path v ≡ ok now
      → (now ≤ size) × (clock start + quiet ≤ clock v → now ≡ size)
  seen_size v now a saw =
      let (n, there, small, late) = quiets v a in
      let same : n ≡ now = cc (there, saw) in (rw (← same) small, rw (← same) late)

  nap-le :
      {current count elapsed : ℕ} {w : World}
      → Progress current count elapsed w
      → nap bound current elapsed ≤ interval
  nap-le {current} {w} p =
      omega (arith, poll_interval_mono current size (seen_size w current p.asleep p.saw).0)

  module _ {current count elapsed : ℕ} {w : World} (p : Progress current count elapsed w) where
    -- The next round's time and world.
    abbrev elapsed' : ℕ
    elapsed' = elapsed + nap bound current elapsed

    abbrev w' : World
    w' = sleep (nap bound current elapsed) w

    on_time' : clock w' ≡ clock start + elapsed'
    on_time' = omega (arith, p.on_time, sleeps.clock-sleep (nap bound current elapsed) w)

    round_equal :
        count + 1 < 3 → file_size os path w' ≡ ok current → Progress current (count + 1) elapsed' w'
    round_equal more saw = record {
      asleep = nap_on (nap bound current elapsed) p.asleep;
      on_time = on_time';
      saw = saw;
      few = more;
      soon = omega (arith, p.soon, nap-le p);
    }

    -- A change is seen only by a round that starts before the file is quiet.
    changes_early :
        (new_size : ℕ) → file_size os path w' ≡ ok new_size → new_size ≢ current → elapsed < quiet
    changes_early new_size saw other = elim (dec_lt elapsed quiet) [
      | yes early ↦ early
      | no late ↦
          let now : current ≡ size =
            (seen_size w current p.asleep p.saw).1 (omega (arith, p.on_time)) in
          let then : new_size ≡ size =
            (seen_size w' new_size (nap_on (nap bound current elapsed) p.asleep) saw).1
              (omega (arith, on_time')) in
          absurd (other (omega arith))
    ]

    round_grown :
        (new_size : ℕ)
        → file_size os path w' ≡ ok new_size
        → new_size ≢ current
        → Progress new_size 0 elapsed' w'
    round_grown new_size saw other = record {
      asleep = nap_on (nap bound current elapsed) p.asleep;
      on_time = on_time';
      saw = saw;
      few = omega arith;
      soon = omega (arith, nap-le p, changes_early new_size saw other);
    }

    in_bound : elapsed < bound
    in_bound = omega (arith, p.soon, rounds-le count interval p.few, in_time)

  Settles-quiet :
      {current count elapsed : ℕ} {w : World} {r : Outcome os path bound}
      → Progress current count elapsed w
      → Settles os path bound current count elapsed w r
      → (settled : ℕ) × (r.0 ≡ ok (stable settled))
  Settles-quiet p (no_time current count elapsed w late) = absurd (omega (arith, in_bound p))
  Settles-quiet p (no_file current count elapsed w e early gone) =
      let (now, there, _, _) = quiets (w' p) (nap_on (nap bound current elapsed) p.asleep) in
      absurd (cc (gone, there))
  Settles-quiet p (third_equal current count elapsed w early saw third) = (current, refl)
  Settles-quiet p (equal_late current count elapsed w early saw more late) =
      absurd (omega (arith, in_bound (round_equal p more saw)))
  Settles-quiet p (equal current count elapsed w r early saw more inside rest) =
      Settles-quiet (round_equal p more saw) rest
  Settles-quiet p (grown_late current count elapsed w new_size early saw other late) =
      absurd (omega (arith, in_bound (round_grown p new_size saw other)))
  Settles-quiet p (grown current count elapsed w new_size r early saw other inside rest) =
      Settles-quiet (round_grown p new_size saw other) rest

  -- If the file that is written to comes to rest three polls of its last size before the bound, or
  -- earlier, and is never larger than that size, then the window settles: it neither runs into its
  -- bound nor fails. Condition: a sleep lasts as long as it was asked to.
  pub settle_quiet : (settled : ℕ) × ((settle os path bound none start).0 ≡ ok (stable settled))
  settle_quiet =
      let (now, there, small, late) = quiets start here in
      Settles-quiet
        (record {
          asleep = here;
          on_time = omega arith;
          saw = there;
          few = omega arith;
          soon = omega (arith, poll_interval_floor size);
        })
        (settle_start os path bound start now there)
