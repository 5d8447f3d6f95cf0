-- ===== src/Source/Settle/Idle.antt =====
-- The settle window on a file that nobody writes to.
use pulse_narrator.Prelude.{
  ℕ, ap, ◌∙◌, ◌+◌, ◌<◌, String, ◌≡◌, ◌⊎◌, arith, none, inl, inr, if◌then◌else◌, ltb,
}
use pulse_narrator.Prelude.Results.{ok}
use pulse_narrator.System.{Os}
use pulse_narrator.Source.Settle.{
  SettleOutcome, stable, at_bound, nap, file_size, settle, poll_interval_for_size,
  poll_interval_floor, default_settle_bound,
}
use pulse_narrator.Source.Settle.Rounds.{
  Outcome, Settles, settle_start, no_time, no_file, third_equal, equal_late, equal, grown_late,
  grown,
}

module _ (os : Os) where
  open os use {World, sleep}

  -- The worlds that come about by sleeping.
  pub data Asleep (w : World) : World → Type 0 where
    here : Asleep w w
    nap_on : (d : ℕ) {v : World} → Asleep w v → Asleep w (sleep d v)

  -- The file has this size now, and keeps it for as long as one sleeps.
  abbrev pub IsIdle : String → ℕ → World → Type 0
  IsIdle path size w = (v : World) → Asleep w v → file_size os path v ≡ ok size

-- What the window answers on an idle file: two whole polls have to fit before the bound.
abbrev pub idle_outcome : ℕ → ℕ → SettleOutcome
idle_outcome bound size =
    if ltb (poll_interval_for_size size + poll_interval_for_size size) bound
    then stable size
    else at_bound size

-- How far the window is after `count` equal polls.
abbrev OnTime : (bound interval count elapsed : ℕ) → Type 0
OnTime bound i count elapsed =
    ((count ≡ 0) × (elapsed ≡ 0))
    ⊎ ((count ≡ 1) × (elapsed ≡ i) × (i < bound))
    ⊎ ((count ≡ 2) × (elapsed ≡ i + i) × (i + i < bound))

module _ (os : Os) (path : String) (bound size : ℕ) (start : os.World)
    (idle : IsIdle os path size start) where
  open os use {World}

  OnTime-next :
      {count elapsed : ℕ}
      → OnTime bound (poll_interval_for_size size) count elapsed
      → elapsed < bound
      → elapsed + nap bound size elapsed < bound
      → count + 1 < 3
      → OnTime bound (poll_interval_for_size size) (count + 1) (elapsed + nap bound size elapsed)
  OnTime-next (inl (c, e)) early inside two = inr (inl (omega arith, omega arith, omega arith))
  OnTime-next (inr (inl (c, e, i))) early inside two =
      inr (inr (omega arith, omega arith, omega arith))
  OnTime-next (inr (inr (c, e, i))) early inside two = absurd (omega arith)

  Settles-idle :
      {count elapsed : ℕ} {w : World} {r : Outcome os path bound}
      → OnTime bound (poll_interval_for_size size) count elapsed
      → Asleep os start w
      → Settles os path bound size count elapsed w r
      → r.0 ≡ ok (idle_outcome bound size)
  Settles-idle t a (no_time _ count elapsed w late) = ground (arith, poll_interval_floor size)
  Settles-idle t a (no_file _ count elapsed w e early gone) =
      cc (idle _ (nap_on (nap bound size elapsed) a))
  Settles-idle t a (third_equal _ count elapsed w early saw third) = ground arith
  Settles-idle t a (equal_late _ count elapsed w early saw c late) =
      ground (arith, poll_interval_floor size)
  Settles-idle t a (equal _ count elapsed w r early saw c inside more) =
      Settles-idle (OnTime-next t early inside c) (nap_on (nap bound size elapsed) a) more
  Settles-idle t a (grown_late _ count elapsed w new_size early saw other late) =
      absurd (other (cc (saw, idle _ (nap_on (nap bound size elapsed) a))))
  Settles-idle t a (grown _ count elapsed w new_size r early saw other inside more) =
      absurd (other (cc (saw, idle _ (nap_on (nap bound size elapsed) a))))

  -- On an idle file the window settles if and only if two whole polls fit before its bound.
  pub settle_idle : (settle os path bound none start).0 ≡ ok (idle_outcome bound size)
  settle_idle =
      Settles-idle (inl (omega arith, omega arith)) here
        (settle_start os path bound start size (idle start here))

-- With the default bound an idle file is reported as settled exactly if it is below 2,048,000
-- bytes; a larger one is always reported as still growing at the bound.
pub settle_idle_default :
    (os : Os) (path : String) (size : ℕ) (start : os.World)
    → IsIdle os path size start
    → (settle os path default_settle_bound none start).0
      ≡ ok (if ltb size 2048000 then stable size else at_bound size)
unfolding poll_interval_for_size
settle_idle_default os path size start idle =
    settle_idle os path default_settle_bound size start idle ∙ ap ok (ground arith)
