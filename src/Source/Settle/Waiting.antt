-- ===== src/Source/Settle/Waiting.antt =====
-- How long the settle window waits.
use pulse_narrator.Prelude.{ℕ, ◌+◌, ◌≤◌, String, ◌≡◌, arith, none, inl, inr}
use pulse_narrator.Prelude.Results.{ok, Result-cases}
use pulse_narrator.System.{Os, Sleeps}
use pulse_narrator.Source.Settle.{at_bound, nap, file_size, settle}
use pulse_narrator.Source.Settle.Rounds.{
  Outcome, Settles, settle_start, settle_no_file, no_time, no_file, third_equal, equal_late, equal,
  grown_late, grown, woken,
}

module _ (os : Os) (sleeps : Sleeps os) (path : String) (bound : ℕ) where
  open os use {World, clock, sleep}

  abbrev nap_clock :
      (size elapsed : ℕ) (w : World)
      → clock (woken os path bound size elapsed w) ≡ clock w + nap bound size elapsed
  nap_clock size elapsed w = sleeps.clock-sleep (nap bound size elapsed) w

  -- A window never runs past its bound.
  Settles-waits :
      {size count elapsed : ℕ} {w : World} {r : Outcome os path bound}
      → elapsed ≤ bound
      → Settles os path bound size count elapsed w r
      → clock r.1 + elapsed ≤ clock w + bound
  Settles-waits h (no_time size count elapsed w late) = omega arith
  Settles-waits h (no_file size count elapsed w e early gone) =
      omega (arith, nap_clock size elapsed w)
  Settles-waits h (third_equal size count elapsed w early seen third) =
      omega (arith, nap_clock size elapsed w)
  Settles-waits h (equal_late size count elapsed w early seen c late) =
      omega (arith, nap_clock size elapsed w)
  Settles-waits h (equal size count elapsed w r early seen c inside more) =
      omega (arith, nap_clock size elapsed w, Settles-waits (omega arith) more)
  Settles-waits h (grown_late size count elapsed w new_size early seen other late) =
      omega (arith, nap_clock size elapsed w)
  Settles-waits h (grown size count elapsed w new_size r early seen other inside more) =
      omega (arith, nap_clock size elapsed w, Settles-waits (omega arith) more)

  -- A window that ends at its bound has used all of it.
  Settles-uses_all :
      {size count elapsed : ℕ} {w : World} {r : Outcome os path bound} (seen : ℕ)
      → elapsed ≤ bound
      → Settles os path bound size count elapsed w r
      → r.0 ≡ ok (at_bound seen)
      → clock r.1 + elapsed ≡ clock w + bound
  Settles-uses_all s h (no_time size count elapsed w late) q = omega arith
  Settles-uses_all s h (no_file size count elapsed w e early gone) q = cc
  Settles-uses_all s h (third_equal size count elapsed w early seen third) q = cc
  Settles-uses_all s h (equal_late size count elapsed w early seen c late) q =
      omega (arith, nap_clock size elapsed w)
  Settles-uses_all s h (equal size count elapsed w r early seen c inside more) q =
      omega (arith, nap_clock size elapsed w, Settles-uses_all s (omega arith) more q)
  Settles-uses_all s h (grown_late size count elapsed w new_size early seen other late) q =
      omega (arith, nap_clock size elapsed w)
  Settles-uses_all s h (grown size count elapsed w new_size r early seen other inside more) q =
      omega (arith, nap_clock size elapsed w, Settles-uses_all s (omega arith) more q)

  -- If a sleep lasts as long as it was asked to, the window never waits longer than its bound, and it
  -- reports the bound only after waiting for all of it.
  pub settle_waits :
      (w : World)
      → (clock (settle os path bound none w).1 ≤ clock w + bound)
        × ((size : ℕ)
            → (settle os path bound none w).0 ≡ ok (at_bound size)
            → clock (settle os path bound none w).1 ≡ clock w + bound)
  settle_waits w = elim (Result-cases (file_size os path w)) [
    | inr (e, gone) ↦ rw (settle_no_file os path bound w e gone) (omega arith, λ size q. cc)
    | inl (size, seen) ↦
        let run : Settles os path bound size 0 0 w (settle os path bound none w) =
          settle_start os path bound w size seen in
        (
          omega (arith, Settles-waits (omega arith) run),
          λ s q. omega (arith, Settles-uses_all s (omega arith) run q),
        )
  ]
