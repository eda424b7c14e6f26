-- ===== src/Prelude/Decimal/Laws.antt =====
-- Printed numbers are runs of digits that read back.
use Prim.Native.Nat.{ℕ, zero, suc, ◌+◌, ◌-◌, ◌*◌, ◌/◌, ◌%◌, ◌≤◌}
use mathlib.Core.Path.{◌≡◌, refl, ◌∙◌}
use mathlib.Core.Logic.{inl, inr}
use mathlib.Core.Bool.{true, false}
use mathlib.Core.List.{[], ◌∷◌, ◌++◌}
use native.Mathlib.Omega.{arith}
use cdn_platform.Prelude.Tests.{ltb, Bool-cases}
use cdn_platform.Prelude.Predicates.{All, All-append}
use cdn_platform.Prelude.Strings.{Text, is_truthy}
use cdn_platform.Prelude.Decimal.{is_digit, digits_fuel, decimal, value_from, span_digits}

abbrev pub IsDigits : Text → Type 0
IsDigits s = All (λ c. is_digit c ≡ true) s

digits_fuel-IsDigits : (fuel n : ℕ) → IsDigits (digits_fuel fuel n)
unfolding digits_fuel
digits_fuel-IsDigits zero n = (ground arith, tt)
digits_fuel-IsDigits (suc fuel) n = elim (Bool-cases (ltb n 10)) [
  | inl e ↦ rw e (ground arith, tt)
  | inr e ↦ rw e (All-append _ _ _ (digits_fuel-IsDigits fuel (n / 10)) (ground arith, tt))
]

pub decimal-IsDigits : (n : ℕ) → IsDigits (decimal n)
unfolding decimal
decimal-IsDigits n = digits_fuel-IsDigits n n

is_truthy-append_one : (s : Text) (c : ℕ) → is_truthy (s ++ c ∷ []) ≡ true
is_truthy-append_one [] c = refl
is_truthy-append_one (d ∷ s) c = refl

digits_fuel-is_truthy : (fuel n : ℕ) → is_truthy (digits_fuel fuel n) ≡ true
unfolding digits_fuel
digits_fuel-is_truthy zero n = refl
digits_fuel-is_truthy (suc fuel) n = elim (Bool-cases (ltb n 10)) [
  | inl e ↦ rw e
  | inr e ↦ rw e (is_truthy-append_one (digits_fuel fuel (n / 10)) _)
]

pub decimal-is_truthy : (n : ℕ) → is_truthy (decimal n) ≡ true
unfolding decimal
decimal-is_truthy n = digits_fuel-is_truthy n n

value_from-append :
    (acc : ℕ) (s : Text) (c : ℕ) → value_from acc (s ++ c ∷ []) ≡ value_from acc s * 10 + (c - 48)
unfolding value_from
value_from-append acc [] c = refl
value_from-append acc (d ∷ s) c = value_from-append (acc * 10 + (d - 48)) s c

value_from-digits_fuel : (fuel n : ℕ) → n ≤ fuel → value_from 0 (digits_fuel fuel n) ≡ n
unfolding digits_fuel value_from
value_from-digits_fuel zero n h = omega arith
value_from-digits_fuel (suc fuel) n h = elim (Bool-cases (ltb n 10)) [
  | inl e ↦ rw e (omega arith)
  | inr e ↦ rw e (
      value_from-append 0 (digits_fuel fuel (n / 10)) (48 + n % 10)
      ∙ ground (arith, value_from-digits_fuel fuel (n / 10)))
]

-- The digits that are printed are those of the number.
pub value_from-decimal : (n : ℕ) → value_from 0 (decimal n) ≡ n
unfolding decimal
value_from-decimal n = value_from-digits_fuel n n (omega arith)

-- A run of digits ends where another character stands.
pub span_digits-append :
    (d : Text) (c : ℕ) (rest : Text)
    → IsDigits d
    → is_digit c ≡ false
    → span_digits (d ++ c ∷ rest) ≡ (d, c ∷ rest)
unfolding span_digits
span_digits-append [] c rest h e = rw e
span_digits-append (x ∷ d) c rest (q, h) e = rw (span_digits-append d c rest h e, q)
