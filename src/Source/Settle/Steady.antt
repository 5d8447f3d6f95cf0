-- ===== src/Source/Settle/Steady.antt =====
-- What a settled size means: the polls that saw it.
use pulse_narrator.Prelude.{ℕ, suc, ◌<◌, String, ◌≡◌, arith, none, inl, inr}
use pulse_narrator.Prelude.Results.{Result, ok, err, Result-cases}
use mathlib.Core.Path.{subst}
use native.Mathlib.Numerals.{add-one}
use pulse_narrator.System.{Os}
use pulse_narrator.Source.Error.{SourceError}
use pulse_narrator.Source.Settle.{SettleOutcome, stable, at_bound, file_size, settle}
use pulse_narrator.Source.Settle.Rounds.{
  Outcome, Settles, settle_start, settle_no_file, no_time, no_file, third_equal, equal_late, equal,
  grown_late, grown,
}

module _ (os : Os) (path : String) (size : ℕ) where
  open os use {World, sleep}

  -- The file had this size now, and at `n` polls before with nothing else seen between: each poll
  -- comes after a sleep.
  pub data Held : ℕ → World → Type 0 where
    seen : (w : World) → file_size os path w ≡ ok size → Held 0 w
    again :
        (n d : ℕ) (w : World)
        → Held n w
        → file_size os path (sleep d w) ≡ ok size
        → Held (suc n) (sleep d w)

module _ (os : Os) (path : String) (bound : ℕ) where
  open os use {World}

  pub Held-now : {size n : ℕ} {w : World} → Held os path size n w → file_size os path w ≡ ok size
  Held-now (seen w h) = h
  Held-now (again n d w before h) = h

  Held-fewer : {size n : ℕ} {w : World} → Held os path size n w → Held os path size 0 w
  Held-fewer h = seen _ (Held-now h)

  -- What an outcome vouches for.
  abbrev pub Vouched : Result SourceError SettleOutcome → World → Type 0
  Vouched (ok (stable size)) w = Held os path size 3 w
  Vouched (ok (at_bound size)) w = file_size os path w ≡ ok size
  Vouched (err e) w = file_size os path w ≡ err e

  Settles-Vouched :
      {size count elapsed : ℕ} {w : World} {r : Outcome os path bound}
      → count < 3
      → Held os path size count w
      → Settles os path bound size count elapsed w r
      → Vouched r.0 r.1
  Settles-Vouched c h (no_time size count elapsed w late) = Held-now h
  Settles-Vouched c h (no_file size count elapsed w e early gone) = gone
  Settles-Vouched c h (third_equal size count elapsed w early saw third) =
      let two : count ≡ 2 = omega arith in
      again 2 _ w (subst (λ n. Held os path size n w) two h) saw
  Settles-Vouched c h (equal_late size count elapsed w early saw d late) = saw
  Settles-Vouched c h (equal size count elapsed w r early saw d inside more) =
      Settles-Vouched d (rw add-one (again count _ w h saw)) more
  Settles-Vouched c h (grown_late size count elapsed w new_size early saw other late) = saw
  Settles-Vouched c h (grown size count elapsed w new_size r early saw other inside more) =
      Settles-Vouched (omega arith) (seen _ saw) more

  -- A window that settles has seen the size at four polls in a row, the last one just now; one that
  -- ends at the bound gives the size of the last poll; one that fails, the error of the last poll.
  pub settle-Vouched :
      (w : World) → Vouched (settle os path bound none w).0 (settle os path bound none w).1
  settle-Vouched w = elim (Result-cases (file_size os path w)) [
    | inr (e, gone) ↦ rw (settle_no_file os path bound w e gone) gone
    | inl (size, saw) ↦
        Settles-Vouched (omega arith) (seen w saw) (settle_start os path bound w size saw)
  ]
