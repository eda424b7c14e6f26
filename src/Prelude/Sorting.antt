-- ===== src/Prelude/Sorting.antt =====
-- `xs.sort(compare)` as the language documents it: stable, by a comparison whose result counts by
-- its sign only.
pub mod Orders
pub mod Sorted
use Prim.Native.Nat.{ℕ, compare, Ordering}
use mathlib.Core.Bool.{Bool, true, false}
use mathlib.Core.List.{List, [], ◌∷◌}
use cdn_platform.Prelude.Tests.{if◌then◌else◌}

pub data Sign : Type 0 where
  negative neutral positive : Sign

abbrev pub Comparison {ℓ} : Type ℓ → Type ℓ
Comparison A = A → A → Sign

-- `-comparison`
abbrev pub opposite : Sign → Sign
opposite negative = positive
opposite neutral = neutral
opposite positive = negative

infixr 30 ◌or_sign◌
-- `a || b` on the results of comparisons.
abbrev pub ◌or_sign◌ : Sign → Sign → Sign
negative or_sign b = negative
neutral or_sign b = b
positive or_sign b = positive

-- `left - right`
abbrev pub difference : Comparison ℕ
difference a b = elim (compare a b) [
  | Ordering.lt ↦ negative
  | Ordering.eq ↦ neutral
  | Ordering.gt ↦ positive
]

-- The first does not belong behind the second.
abbrev pub in_order : Sign → Bool
in_order negative = true
in_order neutral = true
in_order positive = false

module _ {ℓ} {A : Type ℓ} (c : Comparison A) where
  unfoldable pub insert : A → List A → List A
  insert x [] = x ∷ []
  insert x (y ∷ ys) = let rest = insert x ys in if in_order (c x y) then x ∷ y ∷ ys else y ∷ rest

  unfoldable pub sort : List A → List A
  unfolding insert
  sort [] = []
  sort (x ∷ xs) = insert x (sort xs)
