-- ===== src/Prelude/Decimal.antt =====
-- Decimal notation: what a template literal prints of a natural number, and runs of digits.
pub mod Laws
use Prim.Native.Nat.{ℕ, zero, suc, ◌+◌, ◌-◌, ◌*◌, ◌/◌, ◌%◌}
use mathlib.Core.Bool.{Bool, true, false, ◌&&◌}
use mathlib.Core.List.{List, [], ◌∷◌, ◌++◌}
use mathlib.Core.Option.{Option, none, some}
use cdn_platform.Prelude.Tests.{ltb, leb, if◌then◌else◌}
use cdn_platform.Prelude.Strings.{Text}

-- `\d`
abbrev pub is_digit : ℕ → Bool
is_digit c = leb 48 c && leb c 57

-- The fuel is the number itself: each round divides by ten.
digits_fuel : ℕ → ℕ → Text
digits_fuel zero n = (48 + n % 10) ∷ []
digits_fuel (suc fuel) n =
    let more = digits_fuel fuel (n / 10) in
    if ltb n 10 then (48 + n) ∷ [] else more ++ (48 + n % 10) ∷ []

-- `String(n)`
unfoldable pub decimal : ℕ → Text
unfolding digits_fuel
decimal n = digits_fuel n n

-- The value of a run of digits.
unfoldable pub value_from : ℕ → Text → ℕ
value_from acc [] = acc
value_from acc (c ∷ s) = value_from (acc * 10 + (c - 48)) s

-- `s` split behind its longest run of digits.
unfoldable pub span_digits : Text → Text × Text
span_digits [] = ([], [])
span_digits (c ∷ s) =
    let (d, rest) = span_digits s in if is_digit c then (c ∷ d, rest) else ([], c ∷ s)
