-- ===== src/Source/Settle/Rounds.antt =====
-- The settle window as a relation, one rule for each way that a round goes.
use pulse_narrator.Prelude.{
  ℕ, ◌+◌, ◌≤◌, ◌<◌, String, ◌≡◌, ◌≢◌, ◌⊎◌, arith, inl, inr, none, le→leb, lt→leb_false, ap, ◌∙◌,
}
use pulse_narrator.Prelude.Results.{Result, ok, err, Result-cases}
use pulse_narrator.Prelude.Order.{Later, Later-Acc}
use pulse_narrator.System.{Os}
use pulse_narrator.Source.Error.{SourceError}
use pulse_narrator.Source.Settle.{
  SettleOutcome, stable, at_bound, complete, go_on, judge, nap, file_size, settle_loop, settle,
  nap-Later, poll_interval_floor,
}
use mathlib.Core.Logic.{dif_pos, dif_neg}
use mathlib.Core.WellFounded.{Acc}
use native.Mathlib.Decide.{dec_lt}
use native.Mathlib.Bridge.{le_prop}

-- The three verdicts on a poll.
judge-cases :
    (size count new_size : ℕ)
    → ((judge size count new_size ≡ complete size) × (new_size ≡ size) × (3 ≤ count + 1))
      ⊎ ((judge size count new_size ≡ go_on size (count + 1)) × (new_size ≡ size) × (count + 1 < 3))
      ⊎ ((judge size count new_size ≡ go_on new_size 0) × (new_size ≢ size))
unfolding judge
judge-cases size count new_size = ground arith

module _ (os : Os) (path : String) (bound : ℕ) where
  open os use {World, sleep}

  -- The world after the nap of a round.
  abbrev pub woken : ℕ → ℕ → World → World
  woken size elapsed w = sleep (nap bound size elapsed) w

  abbrev pub Outcome : Type 0
  Outcome = Result SourceError SettleOutcome × World

  -- From a size, a count of equal polls and the time gone, to what the window answers.
  pub data Settles : ℕ → ℕ → ℕ → World → Outcome → Type 0 where
    no_time :
        (size count elapsed : ℕ) (w : World)
        → bound ≤ elapsed
        → Settles size count elapsed w (ok (at_bound size), w)
    no_file :
        (size count elapsed : ℕ) (w : World) (e : SourceError)
        → elapsed < bound
        → file_size os path (woken size elapsed w) ≡ err e
        → Settles size count elapsed w (err e, woken size elapsed w)
    third_equal :
        (size count elapsed : ℕ) (w : World)
        → elapsed < bound
        → file_size os path (woken size elapsed w) ≡ ok size
        → 3 ≤ count + 1
        → Settles size count elapsed w (ok (stable size), woken size elapsed w)
    equal_late :
        (size count elapsed : ℕ) (w : World)
        → elapsed < bound
        → file_size os path (woken size elapsed w) ≡ ok size
        → count + 1 < 3
        → bound ≤ elapsed + nap bound size elapsed
        → Settles size count elapsed w (ok (at_bound size), woken size elapsed w)
    equal :
        (size count elapsed : ℕ) (w : World) (r : Outcome)
        → elapsed < bound
        → file_size os path (woken size elapsed w) ≡ ok size
        → count + 1 < 3
        → elapsed + nap bound size elapsed < bound
        → Settles size (count + 1) (elapsed + nap bound size elapsed) (woken size elapsed w) r
        → Settles size count elapsed w r
    grown_late :
        (size count elapsed : ℕ) (w : World) (new_size : ℕ)
        → elapsed < bound
        → file_size os path (woken size elapsed w) ≡ ok new_size
        → new_size ≢ size
        → bound ≤ elapsed + nap bound size elapsed
        → Settles size count elapsed w (ok (at_bound new_size), woken size elapsed w)
    grown :
        (size count elapsed : ℕ) (w : World) (new_size : ℕ) (r : Outcome)
        → elapsed < bound
        → file_size os path (woken size elapsed w) ≡ ok new_size
        → new_size ≢ size
        → elapsed + nap bound size elapsed < bound
        → Settles new_size 0 (elapsed + nap bound size elapsed) (woken size elapsed w) r
        → Settles size count elapsed w r

  -- The loop answers as the rules of the window say, from any size, count of equal polls and time
  -- gone by; so it always answers.
  pub settle_loop-Settles :
      (size count elapsed : ℕ) (a : Acc (Later bound) elapsed) (w : World)
      → Settles size count elapsed w (settle_loop os path bound size count elapsed a w)
  unfolding settle_loop
  settle_loop-Settles size count elapsed (Acc.intro _ later) w = elim (dec_lt 0 pause) [
    | no done ↦
        rw (dif_neg (dec_lt 0 pause) done)
          (no_time size count elapsed w (omega (arith, poll_interval_floor size)))
    | yes awake ↦
        let next : Later bound (elapsed + pause) elapsed = nap-Later bound size elapsed awake in
        let more : (s c : ℕ)
            → Settles s c (elapsed + pause) w' (
                settle_loop os path bound s c (elapsed + pause) (later (elapsed + pause) next) w') =
          λ s c. settle_loop-Settles s c (elapsed + pause) (later (elapsed + pause) next) w' in
        rw (dif_pos (dec_lt 0 pause) le_prop awake) (elim (Result-cases (file_size os path w')) [
          | inr (e, gone) ↦ rw gone (no_file size count elapsed w e (omega arith) gone)
          | inl (new_size, seen) ↦ rw seen (elim (judge-cases size count new_size) [
            | inl (j, same, third) ↦
                rw j (third_equal size count elapsed w (omega arith) (seen ∙ ap ok same) third)
            | inr (inl (j, same, early)) ↦ rw j (elim (dec_lt (elapsed + pause) bound) [
              | yes inside ↦ rw (lt→leb_false _ _ inside) (
                  equal size count elapsed w _ (omega arith) (seen ∙ ap ok same) early inside
                    (more size (count + 1)))
              | no over ↦ rw (le→leb bound (elapsed + pause) (omega arith)) (
                  equal_late size count elapsed w (omega arith) (seen ∙ ap ok same) early
                    (omega arith))
            ])
            | inr (inr (j, other)) ↦ rw j (elim (dec_lt (elapsed + pause) bound) [
              | yes inside ↦ rw (lt→leb_false _ _ inside) (
                  grown size count elapsed w new_size _ (omega arith) seen other inside
                    (more new_size 0))
              | no over ↦
                  rw (le→leb bound (elapsed + pause) (omega arith)) (
                    grown_late size count elapsed w new_size (omega arith) seen other (omega arith))
            ])
          ])
        ])
  ]
    where
      pause : ℕ
      pause = nap bound size elapsed

      w' : World
      w' = woken size elapsed w

  -- The window starts at the size that the file has.
  pub settle_start :
      (w : World) (size : ℕ)
      → file_size os path w ≡ ok size
      → Settles size 0 0 w (settle os path bound none w)
  unfolding settle
  settle_start w size seen = rw (settle, seen) (settle_loop-Settles size 0 0 (Later-Acc bound 0) w)

  pub settle_no_file :
      (w : World) (e : SourceError)
      → file_size os path w ≡ err e
      → settle os path bound none w ≡ (err e, w)
  unfolding settle
  settle_no_file w e gone = rw (settle, gone)
