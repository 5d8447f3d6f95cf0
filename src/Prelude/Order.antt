-- ===== src/Prelude/Order.antt =====
-- Time that runs up to a bound: the relation on which loops with a deadline recur.
use Prim.Native.Nat.{ℕ, zero, suc, ◌-◌, ◌≤◌, ◌<◌}
use mathlib.Core.WellFounded.{Acc}
use native.Mathlib.Omega.{arith}

-- `later` comes after `now`, and not after the bound.
abbrev pub Later : ℕ → ℕ → ℕ → Type 0
Later bound later now = (now < later) × (later ≤ bound)

Later-Acc_within : (bound left now : ℕ) → bound - now < left → Acc (Later bound) now
Later-Acc_within bound zero now h = absurd (omega arith)
Later-Acc_within bound (suc left) now h =
    Acc.intro now (λ later p. Later-Acc_within bound left later (omega arith))

-- No run up to a bound goes on for ever.
unfoldable pub Later-Acc : (bound now : ℕ) → Acc (Later bound) now
unfolding Later-Acc_within
Later-Acc bound now = Later-Acc_within bound (suc (bound - now)) now (omega arith)
