-- ===== src/Source/Reader/ReadOnly.antt =====
-- What a read of crates/pulse-source/src/reader.rs does to the world.
use pulse_narrator.Prelude.{ℕ, String, List, Option, none, inl, inr}
use pulse_narrator.Prelude.Results.{Result-cases}
use pulse_narrator.System.{Os}
use pulse_narrator.Source.Probe.{Json}
use pulse_narrator.Source.Settle.{file_size, settle, default_settle_bound}
use pulse_narrator.Source.Settle.Idle.{Asleep, here, nap_on}
use pulse_narrator.Source.Settle.Rounds.{
  Outcome, Settles, settle_start, settle_no_file, no_time, no_file, third_equal, equal_late, equal,
  grown_late, grown,
}
use pulse_narrator.Source.Reader.{read_complete}
use pulse_narrator.Source.Reader.Verdicts.{read_settled_after, read_complete-cases}

module _ (os : Os) (path : String) where
  open os use {World}

  Settles-Asleep :
      {bound size count elapsed : ℕ} {start w : World} {r : Outcome os path bound}
      → Asleep os start w
      → Settles os path bound size count elapsed w r
      → Asleep os start r.1
  Settles-Asleep a (no_time size count elapsed w late) = a
  Settles-Asleep a (no_file size count elapsed w e early gone) = nap_on _ a
  Settles-Asleep a (third_equal size count elapsed w early saw third) = nap_on _ a
  Settles-Asleep a (equal_late size count elapsed w early saw c late) = nap_on _ a
  Settles-Asleep a (equal size count elapsed w r early saw c inside more) =
      Settles-Asleep (nap_on _ a) more
  Settles-Asleep a (grown_late size count elapsed w new_size early saw other late) = nap_on _ a
  Settles-Asleep a (grown size count elapsed w new_size r early saw other inside more) =
      Settles-Asleep (nap_on _ a) more

  pub settle-Asleep : (bound : ℕ) (w : World) → Asleep os w (settle os path bound none w).1
  settle-Asleep bound w = elim (Result-cases (file_size os path w)) [
    | inr (e, gone) ↦ rw (settle_no_file os path bound w e gone) here
    | inl (size, seen) ↦ Settles-Asleep here (settle_start os path bound w size seen)
  ]

  -- What sleeping keeps and the reading of the file keeps, a read keeps.
  pub read_complete-keeps :
      (json : Json) (hash : List ℕ → ℕ) {P : World → Type 0}
      → ((d : ℕ) (v : World) → P v → P (os.sleep d v))
      → ((v : World) → P v → P (os.read path v).1)
      → (last : Option ℕ) (w : World) → P w
      → P (read_complete os json hash path last w).1
  read_complete-keeps json hash {P} sleeps reads last w p =
      elim (read_complete-cases os json hash path last w) [
        | inl (whole, not_shrunk) ↦ elim (read_settled_after os json hash path w) [
          | inl waited ↦ rw (whole, waited) slept
          | inr read ↦ rw (whole, read) (reads _ slept)
        ]
        | inr (inl (x, gone, failed)) ↦ rw failed p
        | inr (inr (current, shrunk, cut)) ↦ rw cut p
      ]
    where
      after : {v : World} → Asleep os w v → P v
      after here = p
      after (nap_on d {v} a) = sleeps d v (after a)

      slept : P (settle os path default_settle_bound none w).1
      slept = after (settle-Asleep default_settle_bound w)
