-- ===== src/Source/Settle.antt =====
-- crates/pulse-source/src/reader.rs, the adaptive settle window. Durations are whole milliseconds,
-- as all that the code builds are.
pub mod Rounds
pub mod Waiting
pub mod Steady
pub mod Idle
pub mod Polls
pub mod Quiet
use pulse_narrator.Prelude.{
  ℕ, suc, ◌+◌, ◌-◌, ◌/◌, ◌≤◌, ◌<◌, min, max, String, Bool, Option, none, some, ltb, leb, ◌==◌,
  if◌then◌else◌, arith,
}
use pulse_narrator.Prelude.Results.{Result, ok, err, map_err}
use pulse_narrator.Prelude.Actions.{Action}
use pulse_narrator.Prelude.Order.{Later, Later-Acc}
use pulse_narrator.System.{Os}
use pulse_narrator.Source.Error.{SourceError, open_failed}
use mathlib.Core.Logic.{dite}
use mathlib.Core.WellFounded.{Acc}
use native.Mathlib.Decide.{dec_lt}

abbrev pub default_settle_bound : ℕ
default_settle_bound = 2000

abbrev pub base_poll_interval : ℕ
base_poll_interval = 50

abbrev pub stable_polls_required : ℕ
stable_polls_required = 3

unfoldable pub poll_interval_for_size : ℕ → ℕ
poll_interval_for_size size_bytes =
    let size_kb = size_bytes / 1024 in
    let scaled_ms = size_kb / 2 in max (max scaled_ms 50) base_poll_interval

-- A nap is at least 50 ms unless the bound cuts it.
pub poll_interval_floor : (size : ℕ) → base_poll_interval ≤ poll_interval_for_size size
unfolding poll_interval_for_size
poll_interval_floor size = omega arith

pub data SettleOutcome : Type 0 where
  stable : ℕ → SettleOutcome
  at_bound : ℕ → SettleOutcome

-- The size that an outcome carries.
unfoldable pub size_of : SettleOutcome → ℕ
size_of (stable size) = size
size_of (at_bound size) = size

-- `min(interval, bound.saturating_sub(elapsed))`
abbrev pub nap : ℕ → ℕ → ℕ → ℕ
nap bound size elapsed = min (poll_interval_for_size size) (bound - elapsed)

-- What a poll decides: that the write is complete, or the size and the count to go on with.
pub data Poll : Type 0 where
  complete : ℕ → Poll
  go_on : ℕ → ℕ → Poll

unfoldable pub judge : ℕ → ℕ → ℕ → Poll
judge current_size stable_count new_size =
    if new_size == current_size
    then if leb stable_polls_required (stable_count + 1)
      then complete current_size
      else go_on current_size (stable_count + 1)
    else go_on new_size 0

pub nap-Later :
    (bound size elapsed : ℕ)
    → 0 < nap bound size elapsed
    → Later bound (elapsed + nap bound size elapsed) elapsed
nap-Later bound size elapsed h = omega arith

module _ (os : Os) where
  open os use {World, metadata_len, sleep}

  unfoldable pub file_size : String → World → Result SourceError ℕ
  file_size path w = map_err (open_failed path) (metadata_len path w)

  -- The loop. `elapsed` grows in every round and never passes the bound.
  unfoldable pub settle_loop :
      String
      → (bound current_size stable_count elapsed : ℕ) → Acc (Later bound) elapsed
      → Action World SourceError SettleOutcome
  settle_loop path bound current_size stable_count elapsed (Acc.intro _ later) w =
      let pause = nap bound current_size elapsed in
      dite (dec_lt 0 pause)
        (λ awake.
          let w' = sleep pause w in
          let elapsed' = elapsed + pause in
          elim (file_size path w') [
            | err e ↦ (err e, w')
            | ok new_size ↦ elim (judge current_size stable_count new_size) [
              | complete size ↦ (ok (stable size), w')
              | go_on size count ↦
                  let rest =
                    settle_loop path bound size count elapsed'
                      (later elapsed' (nap-Later bound current_size elapsed awake)) w' in
                  if leb bound elapsed' then (ok (at_bound size), w') else rest
            ]
          ])
        (λ _. (ok (at_bound current_size), w))

  unfoldable pub settle : String → ℕ → Option ℕ → Action World SourceError SettleOutcome
  unfolding Later-Acc
  settle path bound (some size) w = (ok (stable size), w)
  settle path bound none w = elim (file_size path w) [
    | err e ↦ (err e, w)
    | ok current_size ↦ settle_loop path bound current_size 0 0 (Later-Acc bound 0) w
  ]
