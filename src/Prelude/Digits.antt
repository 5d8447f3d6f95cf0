-- ===== src/Prelude/Digits.antt =====
-- The texts of numbers read back: formatting loses nothing, and writes no colon.
use Prim.Native.Nat.{ℕ, zero, suc, ◌+◌, ◌-◌, ◌*◌, ◌/◌, ◌%◌, ◌^◌, ◌<◌}
use Prim.Native.Char.{code}
use Prim.Native.String.{String, ◌++◌ as ◌<>◌}
use mathlib.Core.Path.{◌≡◌, refl, sym, ap, ◌∙◌}
use mathlib.Core.Bool.{Bool, true, not, ◌&&◌}
use native.Mathlib.Omega.{arith}
use native.Mathlib.Nat.{pow-suc}
use native.Mathlib.Decide.{dec_lt}
use text.Mathlib.TextLemmas.{nil-append, cons-append}
use pulse_narrator.Prelude.Tests.{ltb, lt→ltb, le→ltb_false, ◌==◌, if◌then◌else◌}
use pulse_narrator.Prelude.Format.{digits, nth_digit, digit, hex, decimal_fuel, decimal}

-- The value of a digit, by its code point.
abbrev digit_value : ℕ → ℕ
digit_value c = if ltb c 58 then c - 48 else c - 87

-- The value of a text of digits to a base, after the digits of `acc`.
abbrev value : ℕ → ℕ → String → ℕ
value base acc String.[] = acc
value base acc (String.◌∷◌ c s) = value base (acc * base + digit_value (code c)) s

value-append :
    (base acc : ℕ) (s t : String) → value base acc (s <> t) ≡ value base (value base acc s) t
value-append base acc String.[] t = rw nil-append
value-append base acc (String.◌∷◌ c s) t =
    rw cons-append (value-append base (acc * base + digit_value (code c)) s t)

value-digit : (base acc d : ℕ) → d < 16 → value base acc (digit d) ≡ acc * base + d
unfolding digit
value-digit base acc zero h = refl
value-digit base acc (suc zero) h = refl
value-digit base acc (suc (suc zero)) h = refl
value-digit base acc (suc (suc (suc zero))) h = refl
value-digit base acc (suc (suc (suc (suc zero)))) h = refl
value-digit base acc (suc (suc (suc (suc (suc zero))))) h = refl
value-digit base acc (suc (suc (suc (suc (suc (suc zero)))))) h = refl
value-digit base acc (suc (suc (suc (suc (suc (suc (suc zero))))))) h = refl
value-digit base acc (suc (suc (suc (suc (suc (suc (suc (suc zero)))))))) h = refl
value-digit base acc (suc (suc (suc (suc (suc (suc (suc (suc (suc zero))))))))) h = refl
value-digit base acc (suc (suc (suc (suc (suc (suc (suc (suc (suc (suc zero)))))))))) h = refl
value-digit base acc (suc (suc (suc (suc (suc (suc (suc (suc (suc (suc (suc zero))))))))))) h = refl
value-digit base acc (suc (suc (suc (suc (suc (suc (suc (suc (suc (suc (suc (suc zero))))))))))))
      h =
    refl
value-digit base acc
      (suc (suc (suc (suc (suc (suc (suc (suc (suc (suc (suc (suc (suc zero))))))))))))) h =
    refl
value-digit base acc
      (suc (suc (suc (suc (suc (suc (suc (suc (suc (suc (suc (suc (suc (suc zero)))))))))))))) h =
    refl
value-digit base acc
      (suc (suc (suc (suc (suc (suc (suc (suc (suc (suc (suc (suc (suc (suc (suc zero)))))))))))))))
      h =
    refl
value-digit base acc
      (suc
        (suc (suc (suc (suc (suc (suc (suc (suc (suc (suc (suc (suc (suc (suc (suc n))))))))))))))))
      h =
    absurd (omega arith)

abbrev pub colon_free : String → Bool
colon_free String.[] = true
colon_free (String.◌∷◌ c s) = not (code c == 58) && colon_free s

colon_free-append :
    (s t : String) → colon_free s ≡ true → colon_free t ≡ true → colon_free (s <> t) ≡ true
colon_free-append String.[] t h k = rw nil-append k
colon_free-append (String.◌∷◌ c s) t h k = rw cons-append (ground (arith, colon_free-append s t))

colon_free-nth_digit : (n : ℕ) → colon_free (nth_digit digits n) ≡ true
colon_free-nth_digit zero = refl
colon_free-nth_digit (suc zero) = refl
colon_free-nth_digit (suc (suc zero)) = refl
colon_free-nth_digit (suc (suc (suc zero))) = refl
colon_free-nth_digit (suc (suc (suc (suc zero)))) = refl
colon_free-nth_digit (suc (suc (suc (suc (suc zero))))) = refl
colon_free-nth_digit (suc (suc (suc (suc (suc (suc zero)))))) = refl
colon_free-nth_digit (suc (suc (suc (suc (suc (suc (suc zero))))))) = refl
colon_free-nth_digit (suc (suc (suc (suc (suc (suc (suc (suc zero)))))))) = refl
colon_free-nth_digit (suc (suc (suc (suc (suc (suc (suc (suc (suc zero))))))))) = refl
colon_free-nth_digit (suc (suc (suc (suc (suc (suc (suc (suc (suc (suc zero)))))))))) = refl
colon_free-nth_digit (suc (suc (suc (suc (suc (suc (suc (suc (suc (suc (suc zero))))))))))) = refl
colon_free-nth_digit (suc (suc (suc (suc (suc (suc (suc (suc (suc (suc (suc (suc zero)))))))))))) =
    refl
colon_free-nth_digit
      (suc (suc (suc (suc (suc (suc (suc (suc (suc (suc (suc (suc (suc zero))))))))))))) =
    refl
colon_free-nth_digit
      (suc (suc (suc (suc (suc (suc (suc (suc (suc (suc (suc (suc (suc (suc zero)))))))))))))) =
    refl
colon_free-nth_digit
      (suc
        (suc (suc (suc (suc (suc (suc (suc (suc (suc (suc (suc (suc (suc (suc zero))))))))))))))) =
    refl
colon_free-nth_digit
      (suc (
        suc
          (suc (suc (suc (suc (suc (suc (suc (suc (suc (suc (suc (suc (suc (suc n)))))))))))))))) =
    refl

pub colon_free-hex : (k n : ℕ) → colon_free (hex k n) ≡ true
unfolding hex digit
colon_free-hex zero n = refl
colon_free-hex (suc k) n =
    colon_free-append (hex k (n / 16)) _ (colon_free-hex k (n / 16)) (colon_free-nth_digit (n % 16))

colon_free-decimal_fuel : (fuel n : ℕ) → colon_free (decimal_fuel fuel n) ≡ true
unfolding decimal_fuel digit
colon_free-decimal_fuel zero n = refl
colon_free-decimal_fuel (suc fuel) n = elim (dec_lt n 10) [
  | yes small ↦ rw (lt→ltb n 10 small) (colon_free-nth_digit n)
  | no large ↦ rw (le→ltb_false n 10 (omega arith)) (
      colon_free-append (decimal_fuel fuel (n / 10)) _ (colon_free-decimal_fuel fuel (n / 10))
        (colon_free-nth_digit (n % 10)))
]

pub colon_free-decimal : (n : ℕ) → colon_free (decimal n) ≡ true
unfolding decimal
colon_free-decimal n = colon_free-decimal_fuel (suc n) n

value-hex : (k n : ℕ) → n < 16 ^ k → value 16 0 (hex k n) ≡ n
unfolding hex
value-hex zero n h = omega arith
value-hex (suc k) n h =
    value-append 16 0 (hex k (n / 16)) (digit (n % 16))
    ∙ value-digit 16 _ (n % 16) (omega arith)
    ∙ rw (value-hex k (n / 16) less) (omega arith)
  where
    less : n / 16 < 16 ^ k
    less = omega (arith, pow-suc 16 k)

value-decimal_fuel : (fuel n : ℕ) → n < fuel → value 10 0 (decimal_fuel fuel n) ≡ n
unfolding decimal_fuel
value-decimal_fuel zero n h = absurd (omega arith)
value-decimal_fuel (suc fuel) n h = elim (dec_lt n 10) [
  | yes small ↦ rw (lt→ltb n 10 small) (value-digit 10 0 n (omega arith) ∙ omega arith)
  | no large ↦ rw (le→ltb_false n 10 (omega arith)) (
      value-append 10 0 (decimal_fuel fuel (n / 10)) (digit (n % 10))
      ∙ value-digit 10 _ (n % 10) (omega arith)
      ∙ rw (value-decimal_fuel fuel (n / 10) (omega arith)) (omega arith))
]

-- Sixteen hexadecimal digits tell 64-bit values apart.
pub hex_inj : (k m n : ℕ) → m < 16 ^ k → n < 16 ^ k → hex k m ≡ hex k n → m ≡ n
hex_inj k m n hm hn same = sym (value-hex k m hm) ∙ ap (value 16 0) same ∙ value-hex k n hn

pub decimal_inj : (m n : ℕ) → decimal m ≡ decimal n → m ≡ n
unfolding decimal
decimal_inj m n same =
    sym (value-decimal_fuel (suc m) m (omega arith))
    ∙ ap (value 10 0) same
    ∙ value-decimal_fuel (suc n) n (omega arith)
