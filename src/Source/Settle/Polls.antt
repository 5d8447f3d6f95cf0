-- ===== src/Source/Settle/Polls.antt =====
-- How often the settle window asks for the size of the file.
use pulse_narrator.Prelude.{ℕ, ◌+◌, String}
use pulse_narrator.System.{Os}
use pulse_narrator.Source.Settle.Rounds.{
  Outcome, Settles, no_time, no_file, third_equal, equal_late, equal, grown_late, grown,
}

module _ (os : Os) (path : String) (bound : ℕ) where
  open os use {World}

  -- The polls of a window: one in each round that starts before the bound.
  abbrev pub polls :
      {size count elapsed : ℕ} {w : World} {r : Outcome os path bound}
      → Settles os path bound size count elapsed w r
      → ℕ
  polls (no_time size count elapsed w late) = 0
  polls (no_file size count elapsed w e early gone) = 1
  polls (third_equal size count elapsed w early seen third) = 1
  polls (equal_late size count elapsed w early seen c late) = 1
  polls (equal size count elapsed w r early seen c inside more) = 1 + polls more
  polls (grown_late size count elapsed w new_size early seen other late) = 1
  polls (grown size count elapsed w new_size r early seen other inside more) = 1 + polls more
