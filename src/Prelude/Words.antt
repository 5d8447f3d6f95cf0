-- ===== src/Prelude/Words.antt =====
-- Machine words: saturating sums and the little-endian bytes of a `u32`.
use Prim.Native.Nat.{ℕ, ◌+◌, ◌*◌, ◌/◌, ◌%◌, ◌^◌, ◌-◌, ◌<◌, min}
use mathlib.Core.Path.{◌≡◌}
use mathlib.Core.List.{List, [], ◌∷◌}
use native.Mathlib.Omega.{arith}

abbrev pub u64_max : ℕ
u64_max = 2 ^ 64 - 1

-- `u64::saturating_add`
abbrev pub saturating_add : ℕ → ℕ → ℕ
saturating_add a b = min (a + b) u64_max

-- `n as u32`
abbrev pub as_u32 : ℕ → ℕ
as_u32 n = n % 2 ^ 32

-- `put_u32_le`: the four bytes, lowest first.
unfoldable pub u32_le : ℕ → List ℕ
u32_le n = n % 256 ∷ n / 256 % 256 ∷ n / 65536 % 256 ∷ n / 16777216 % 256 ∷ []

-- `get_u32_le` and `u32::from_le_bytes` on exactly four bytes; any other list stands for no word.
unfoldable pub get_u32_le : List ℕ → ℕ
get_u32_le (a ∷ b ∷ c ∷ d ∷ []) = a + b * 256 + c * 65536 + d * 16777216
get_u32_le _ = 0

pub get_u32_le-u32_le : (n : ℕ) → n < 2 ^ 32 → get_u32_le (u32_le n) ≡ n
unfolding get_u32_le u32_le
get_u32_le-u32_le n h = omega arith
