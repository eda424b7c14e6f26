-- ===== src/Prelude/Tests.antt =====
-- Boolean tests on the native numbers, the conditional, and JavaScript's `??` and `||`.
use Prim.Native.Nat.{ℕ, ◌≤◌, ◌<◌, compare, Ordering}
use mathlib.Core.Path.{◌≡◌, refl}
use mathlib.Core.Logic.{◌↔◌, ◌⊎◌, inl, inr}
use mathlib.Core.Bool.{Bool, true, false, ◌&&◌}
use mathlib.Core.Option.{Option, none, some}
use native.Mathlib.Omega.{arith}

abbrev pub ltb : ℕ → ℕ → Bool
ltb a b = elim (compare a b) [ Ordering.lt ↦ true | _ ↦ false ]

abbrev pub leb : ℕ → ℕ → Bool
leb a b = elim (compare a b) [ Ordering.gt ↦ false | _ ↦ true ]

infix 50 ◌==◌
abbrev pub ◌==◌ : ℕ → ℕ → Bool
a == b = elim (compare a b) [ Ordering.eq ↦ true | _ ↦ false ]

infix 1 if◌then◌else◌
abbrev pub if◌then◌else◌ {ℓ} : {A : Type ℓ} → Bool → A → A → A
if true then x else y = x
if false then x else y = y

pub ltb→lt : (a b : ℕ) → ltb a b ≡ true → a < b
ltb→lt a b h = ground arith

pub lt→ltb : (a b : ℕ) → a < b → ltb a b ≡ true
lt→ltb a b h = ground arith

pub leb→le : (a b : ℕ) → leb a b ≡ true → a ≤ b
leb→le a b h = ground arith

pub ==_iff : (a b : ℕ) → ((a == b) ≡ true) ↔ (a ≡ b)
==_iff a b = ground arith

pub Bool-cases : (b : Bool) → (b ≡ true) ⊎ (b ≡ false)
Bool-cases true = inl refl
Bool-cases false = inr refl

pub and_parts : (a b : Bool) → (a && b) ≡ true → (a ≡ true) × (b ≡ true)
and_parts a b h = ground arith

module _ {ℓ} {A : Type ℓ} where
  pub Option-cases : (o : Option A) → (o ≡ none) ⊎ ((a : A) × (o ≡ some a))
  Option-cases none = inl refl
  Option-cases (some a) = inr (a, refl)

  infixr 30 ◌or◌
  -- `o ?? d`: an absent value is `none`.
  abbrev pub ◌or◌ : Option A → A → A
  none or d = d
  some a or d = a

  -- `Boolean(o)` of an optional object.
  abbrev pub is_some : Option A → Bool
  is_some none = false
  is_some (some a) = true
