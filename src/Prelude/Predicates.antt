-- ===== src/Prelude/Predicates.antt =====
-- Predicates on lists by recursion, which the tactics read and build.
use mathlib.Core.Path.{◌≡◌, refl}
use mathlib.Core.Logic.{◌≢◌, ◌⊎◌, inl, inr}
use mathlib.Core.Bool.{Bool, true}
use mathlib.Core.List.{List, [], ◌∷◌, ◌++◌}
use cdn_platform.Prelude.Tests.{Bool-cases}
use cdn_platform.Prelude.Lists.{filter, all}

module _ {ℓ κ} {A : Type ℓ} (P : A → Type κ) where
  abbrev pub All : List A → Type κ
  All [] = Unit
  All (x ∷ xs) = P x × All xs

  pub All-append : (xs ys : List A) → All xs → All ys → All (xs ++ ys)
  All-append [] ys hx hy = hy
  All-append (x ∷ xs) ys (p, hx) hy = (p, All-append xs ys hx hy)

  pub All-filter : (p : A → Bool) (xs : List A) → All xs → All (filter p xs)
  All-filter p [] h = tt
  All-filter p (x ∷ xs) (q, h) = elim (Bool-cases (p x)) [
    | inl e ↦ rw e (q, All-filter p xs h)
    | inr e ↦ rw e (All-filter p xs h)
  ]

-- The empty type at every level.
pub data Nothing {ℓ} : Type ℓ where

module _ {ℓ} {A : Type ℓ} where
  -- What a filter keeps passes its test.
  pub All-filter_self : (p : A → Bool) (xs : List A) → All (λ x. p x ≡ true) (filter p xs)
  All-filter_self p [] = tt
  All-filter_self p (x ∷ xs) = elim (Bool-cases (p x)) [
    | inl e ↦ rw e (e, All-filter_self p xs)
    | inr e ↦ rw e (All-filter_self p xs)
  ]

  pub filter-eq_self : (p : A → Bool) (xs : List A) → All (λ x. p x ≡ true) xs → filter p xs ≡ xs
  filter-eq_self p [] h = refl
  filter-eq_self p (x ∷ xs) (e, h) = rw (e, filter-eq_self p xs h)

  pub all-of-All : (p : A → Bool) (xs : List A) → All (λ x. p x ≡ true) xs → all p xs ≡ true
  all-of-All p [] h = refl
  all-of-All p (x ∷ xs) (e, h) = rw (e, all-of-All p xs h)

  abbrev pub Member : A → List A → Type ℓ
  Member a [] = Nothing
  Member a (x ∷ xs) = (a ≡ x) ⊎ Member a xs

  abbrev pub Distinct : List A → Type ℓ
  Distinct [] = Unit
  Distinct (x ∷ xs) = All (λ y. x ≢ y) xs × Distinct xs
