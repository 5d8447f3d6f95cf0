-- ===== src/Examples/Growing.antt =====
-- A transcript that is written to for 300 ms and then left alone.
use pulse_narrator.Prelude.{ℕ, ◌+◌, ◌*◌, ◌≤◌, ◌≡◌, [], none, false, if◌then◌else◌, ltb, refl, arith}
use pulse_narrator.Prelude.Results.{ok}
use pulse_narrator.System.{Os, Sleeps}
use pulse_narrator.Source.Settle.{stable, at_bound, file_size, settle, poll_interval_for_size}
use pulse_narrator.Source.Settle.Waiting.{settle_waits}
use pulse_narrator.Source.Settle.Quiet.{GoesQuiet, settle_quiet}

-- Its size at a time.
abbrev size_at : ℕ → ℕ
size_at now = if ltb now 300 then 100 else 200

-- The world is the time.
abbrev growing : Os
growing = record {
  World = ℕ;
  home = λ w. none;
  parent = λ p. none;
  exists = λ p w. false;
  metadata_len = λ p w. ok (size_at w);
  read = λ p w. (ok [], w);
  write = λ p text w. (ok tt, w);
  remove_file = λ p w. (ok tt, w);
  create_dir_all = λ p w. (ok tt, w);
  set_permissions = λ p m w. (ok tt, w);
  sleep = λ d w. w + d;
  text_at = λ p w. none;
  clock = λ w. w;
}

sleeps : Sleeps growing
sleeps = record { clock-sleep = λ d w. refl }

goes_quiet : GoesQuiet growing "/t" 200 300 0
unfolding file_size
goes_quiet v a = (size_at v, refl, ground arith, ground arith)

in_time : 300 + 3 * poll_interval_for_size 200 ≤ 2000
unfolding poll_interval_for_size
in_time = omega arith

settle_quiet_example : (settled : ℕ) × ((settle growing "/t" 2000 none 0).0 ≡ ok (stable settled))
settle_quiet_example = settle_quiet growing sleeps "/t" 2000 200 300 0 goes_quiet in_time

settle_waits_example :
    (growing.clock (settle growing "/t" 2000 none 0).1 ≤ 0 + 2000)
    × ((size : ℕ)
        → (settle growing "/t" 2000 none 0).0 ≡ ok (at_bound size)
        → growing.clock (settle growing "/t" 2000 none 0).1 ≡ 0 + 2000)
settle_waits_example = settle_waits growing sleeps "/t" 2000 0
