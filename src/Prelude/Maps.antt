-- ===== src/Prelude/Maps.antt =====
-- A hash map with text keys, by its entries. The program never iterates over one, so the order of
-- the entries means nothing.
use Prim.Native.Nat.{suc}
use Prim.Native.String.{String}
use mathlib.Core.Path.{◌≡◌, refl}
use mathlib.Core.Logic.{◌≢◌}
use mathlib.Core.Bool.{false}
use mathlib.Core.Option.{Option, none, some}
use mathlib.Core.List.{List, [], ◌∷◌}
use native.Mathlib.Omega.{arith}
use text.Mathlib.TextEquality.{eq_iff}
use text.Mathlib.TextPositions.{eq_refl}
use pulse_narrator.Prelude.Tests.{str_eq, if◌then◌else◌}
use pulse_narrator.Prelude.Lists.{length}

abbrev pub Map {ℓ} : Type ℓ → Type ℓ
Map V = List (String × V)

module _ {ℓ} {V : Type ℓ} where
  -- `HashMap::get`
  unfoldable pub lookup : String → Map V → Option V
  lookup key [] = none
  lookup key (entry ∷ entries) =
      let later = lookup key entries in if str_eq entry.0 key then some entry.1 else later

  -- `HashMap::insert`
  unfoldable pub insert : String → V → Map V → Map V
  insert key value [] = (key, value) ∷ []
  insert key value (entry ∷ entries) =
      let later = insert key value entries in
      if str_eq entry.0 key then (entry.0, value) ∷ entries else entry ∷ later

  -- Reading any key of a map with one more binding.
  pub lookup-insert :
      (key other : String) (value : V) (entries : Map V)
      → lookup other (insert key value entries)
        ≡ (if str_eq key other then some value else lookup other entries)
  unfolding lookup insert
  lookup-insert key other value [] = refl
  lookup-insert key other value (entry ∷ entries) =
      let later = lookup-insert key other value entries in
      ground (arith, later, eq_iff entry.0 key, eq_iff entry.0 other, eq_iff key other)

module _ {ℓ} {V : Type ℓ} where
  pub lookup-insert_self : (k : String) (v : V) (m : Map V) → lookup k (insert k v m) ≡ some v
  lookup-insert_self k v m = simp (lookup-insert, eq_refl)

  pub lookup-insert_ne :
      (k j : String) (v : V) (m : Map V) → k ≢ j → lookup j (insert k v m) ≡ lookup j m
  lookup-insert_ne k j v m h = rw lookup-insert (ground (arith, eq_iff k j))

  -- No key is listed twice.
  abbrev pub Absent : String → Map V → Type 0
  Absent k [] = Unit
  Absent k ((j, v) ∷ m) = (str_eq j k ≡ false) × Absent k m

  abbrev pub NodupKeys : Map V → Type 0
  NodupKeys [] = Unit
  NodupKeys ((j, v) ∷ m) = Absent j m × NodupKeys m

module _ {ℓ} {V : Type ℓ} where
  Absent-insert :
      (k j : String) (v : V) (m : Map V) → str_eq k j ≡ false → Absent j m → Absent j (insert k v m)
  unfolding insert
  Absent-insert k j v [] h a = (h, tt)
  Absent-insert k j v ((i, w) ∷ m) h (n, a) = ground (arith, Absent-insert k j v m h a)

  pub insert-NodupKeys : (k : String) (v : V) (m : Map V) → NodupKeys m → NodupKeys (insert k v m)
  unfolding insert
  insert-NodupKeys k v [] u = (tt, tt)
  insert-NodupKeys k v ((i, w) ∷ m) (a, u) =
      ground (arith, eq_iff i k, eq_iff k i, Absent-insert k i v m, insert-NodupKeys k v m u)

  -- A new key makes the map one entry longer; a known one does not.
  pub length-insert :
      (k : String) (v : V) (m : Map V)
      → length (insert k v m) ≡ elim (lookup k m) [ none ↦ suc (length m) | some w ↦ length m ]
  unfolding insert lookup
  length-insert k v [] = refl
  length-insert k v ((i, w) ∷ m) = ground (arith, length-insert k v m)
