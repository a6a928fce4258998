-- ===== src/Common/Text/Decimal.antt =====
-- The decimal digits of a number, read back.
use Prim.Native.Nat.{ℕ, zero, suc, ◌+◌, ◌-◌, ◌*◌, ◌/◌, ◌%◌, ◌<◌}
use mathlib.Core.Path.{◌≡◌, refl, ap, ◌∙◌}
use mathlib.Core.Bool.{Bool, true, false, ◌&&◌}
use mathlib.Core.List.{[], ◌∷◌}
use mathlib.Core.Logic.{inl, inr}
use native.Mathlib.Omega.{arith}
use planmaker.Common.Tests.{Bool-cases, leb, ltb}
use planmaker.Common.Lists.{all}
use planmaker.Common.Text.{Text, decimal, decimal_from, is_empty}

abbrev pub is_digit : ℕ → Bool
is_digit c = leb 48 c && leb c 57

-- The number that digits stand for, after those that were read.
abbrev pub digits_value : ℕ → Text → ℕ
digits_value n [] = n
digits_value n (c ∷ t) = digits_value (10 * n + (c - 48)) t

digits_value-decimal_from :
    (fuel n : ℕ) (out : Text)
    → n < fuel
    → digits_value 0 (decimal_from fuel n out) ≡ digits_value n out
unfolding decimal_from
digits_value-decimal_from zero n out few = absurd (omega (arith, few))
digits_value-decimal_from (suc fuel) n out few = elim (Bool-cases (ltb n 10)) [
  | inl small ↦
      rw small (ap (λ m. digits_value m out) {x = 10 * 0 + (48 + n - 48)} {y = n} (omega arith))
  | inr large ↦ rw large (
      digits_value-decimal_from fuel (n / 10) ((48 + n % 10) ∷ out) (ground (arith, few, large))
      ∙ ap (λ m. digits_value m out) {x = 10 * (n / 10) + (48 + n % 10 - 48)} {y = n} (omega arith))
]

decimal_from-digits :
    (fuel n : ℕ) (out : Text)
    → n < fuel
    → all is_digit out ≡ true
    → all is_digit (decimal_from fuel n out) ≡ true
unfolding decimal_from
decimal_from-digits zero n out few digits = absurd (omega (arith, few))
decimal_from-digits (suc fuel) n out few digits = elim (Bool-cases (ltb n 10)) [
  | inl small ↦ ground (arith, small, digits)
  | inr large ↦ rw large (
      decimal_from-digits fuel (n / 10) ((48 + n % 10) ∷ out) (ground (arith, few, large))
        (ground (arith, digits)))
]

pub digits_value-decimal : (n : ℕ) → digits_value 0 (decimal n) ≡ n
unfolding decimal
digits_value-decimal n = digits_value-decimal_from (n + 1) n [] (omega arith)

pub decimal-digits : (n : ℕ) → all is_digit (decimal n) ≡ true
unfolding decimal
decimal-digits n = decimal_from-digits (n + 1) n [] (omega arith) refl

decimal_from-nonempty :
    (fuel n : ℕ) (c : ℕ) (out : Text) → is_empty (decimal_from fuel n (c ∷ out)) ≡ false
unfolding decimal_from
decimal_from-nonempty zero n c out = refl
decimal_from-nonempty (suc fuel) n c out =
    ground (arith, decimal_from-nonempty fuel (n / 10) (48 + n % 10) (c ∷ out))

suc_eq : (n : ℕ) → n + 1 ≡ suc n
suc_eq n = omega arith

pub decimal-nonempty : (n : ℕ) → is_empty (decimal n) ≡ false
unfolding decimal decimal_from
decimal-nonempty n =
    rw (suc_eq n) (ground (arith, decimal_from-nonempty n (n / 10) (48 + n % 10) []))
