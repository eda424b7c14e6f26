-- ===== src/Prelude/Sorting/Sorted.antt =====
-- What sorting gives: the same elements, in order, whatever order they had.
use mathlib.Core.Path.{◌≡◌, refl, sym, ap, ◌∙◌}
use mathlib.Core.Logic.{inl, inr}
use mathlib.Core.Bool.{true, false}
use mathlib.Core.List.{List, [], ◌∷◌, Perm}
use mathlib.Core.List.Perm
use native.Mathlib.Omega.{arith}
use cdn_platform.Prelude.Tests.{Bool-cases}
use cdn_platform.Prelude.Predicates.{All, Member}
use cdn_platform.Prelude.Sorting.{
  Sign, negative, neutral, positive, Comparison, opposite, in_order, insert, sort,
}
use cdn_platform.Prelude.Sorting.Orders.{IsPreorder}

module _ {ℓ} {A : Type ℓ} (c : Comparison A) where
  insert-Perm : (x : A) (xs : List A) → Perm (insert c x xs) (x ∷ xs)
  unfolding insert
  insert-Perm x [] = Perm.refl (x ∷ [])
  insert-Perm x (y ∷ ys) = elim (Bool-cases (in_order (c x y))) [
    | inl e ↦ rw (insert, e) (Perm.refl (x ∷ y ∷ ys))
    | inr e ↦ rw (insert, e) (Perm.trans (Perm.cons y (insert-Perm x ys)) (Perm.swap x y ys))
  ]

  -- Sorting loses nothing and adds nothing.
  pub sort-Perm : (xs : List A) → Perm (sort c xs) xs
  unfolding sort
  sort-Perm [] = Perm.refl []
  sort-Perm (x ∷ xs) = Perm.trans (insert-Perm x (sort c xs)) (Perm.cons x (sort-Perm xs))

  abbrev pub IsBefore : A → A → Type 0
  IsBefore x y = in_order (c x y) ≡ true

  -- Each element is in order with all that stand behind it.
  abbrev pub IsSorted : List A → Type ℓ
  IsSorted [] = Unit
  IsSorted (x ∷ xs) = All (IsBefore x) xs × IsSorted xs

  -- What holds of an element and of a list holds of the list with the element.
  pub insert-All : (P : A → Type 0) (x : A) (ys : List A) → P x → All P ys → All P (insert c x ys)
  unfolding insert
  insert-All P x [] p a = (p, tt)
  insert-All P x (y ∷ ys) p (q, a) = elim (Bool-cases (in_order (c x y))) [
    | inl e ↦ rw (insert, e) (p, (q, a))
    | inr e ↦ rw (insert, e) (q, insert-All P x ys p a)
  ]

  module _ (h : IsPreorder c) where
    behind : (x y : A) → in_order (c x y) ≡ false → IsBefore y x
    behind x y e = rw (h.flips x y) (ground arith)

    All-below : (x y : A) (ys : List A) → IsBefore x y → All (IsBefore y) ys → All (IsBefore x) ys
    All-below x y [] e a = tt
    All-below x y (z ∷ ys) e (first, rest) = (h.trans x y z e first, All-below x y ys e rest)

    insert-IsSorted : (x : A) (ys : List A) → IsSorted ys → IsSorted (insert c x ys)
    unfolding insert
    insert-IsSorted x [] s = (tt, tt)
    insert-IsSorted x (y ∷ ys) (a, s) = elim (Bool-cases (in_order (c x y))) [
      | inl e ↦ rw (insert, e) ((e, All-below x y ys e a), (a, s))
      | inr e ↦
          rw (insert, e) (insert-All (IsBefore y) x ys (behind x y e) a, insert-IsSorted x ys s)
    ]

    pub sort-IsSorted : (xs : List A) → IsSorted (sort c xs)
    unfolding sort
    sort-IsSorted [] = tt
    sort-IsSorted (x ∷ xs) = insert-IsSorted x (sort c xs) (sort-IsSorted xs)

module _ {ℓ} {A : Type ℓ} where
  -- One order of a list and another: neighbours are swapped, one pair after another.
  pub data Reorders : List A → List A → Type ℓ where
    same : (xs : List A) → Reorders xs xs
    behind_head : (x : A) {xs ys : List A} → Reorders xs ys → Reorders (x ∷ xs) (x ∷ ys)
    swap : (x y : A) (xs : List A) → Reorders (x ∷ y ∷ xs) (y ∷ x ∷ xs)
    then_order : {xs ys zs : List A} → Reorders xs ys → Reorders ys zs → Reorders xs zs

  Reorders-Member : {xs ys : List A} → Reorders xs ys → (a : A) → Member a ys → Member a xs
  Reorders-Member (same xs) a m = m
  Reorders-Member (behind_head x r) a (inl e) = inl e
  Reorders-Member (behind_head x r) a (inr m) = inr (Reorders-Member r a m)
  Reorders-Member (swap x y xs) a (inl e) = inr (inl e)
  Reorders-Member (swap x y xs) a (inr (inl e)) = inl e
  Reorders-Member (swap x y xs) a (inr (inr m)) = inr (inr m)
  Reorders-Member (then_order r t) a m = Reorders-Member r a (Reorders-Member t a m)

  -- Only equal elements of the list are tied.
  abbrev pub HasNoTies : Comparison A → List A → Type ℓ
  HasNoTies c xs = (a b : A) → Member a xs → Member b xs → c a b ≡ neutral → a ≡ b

  module _ (c : Comparison A) (h : IsPreorder c) where
    insert_past :
        (x y : A) (zs : List A)
        → c x y ≡ negative
        → insert c x (insert c y zs) ≡ insert c y (insert c x zs)
    unfolding insert
    insert_past x y [] e =
        let back : in_order (c y x) ≡ false = rw (h.flips x y, e) refl in rw (e, back) refl
    insert_past x y (z ∷ zs) e =
        let back : in_order (c y x) ≡ false = rw (h.flips x y, e) refl in
        let first : in_order (c x y) ≡ true = rw e refl in
        elim (Bool-cases (in_order (c x z))) [
          | inl xz ↦ elim (Bool-cases (in_order (c y z))) [
            | inl yz ↦ rw (insert, xz, yz, insert, first, back) refl
            | inr yz ↦ rw (insert, xz, yz, insert, xz, back) refl
          ]
          | inr xz ↦ elim (Bool-cases (in_order (c y z))) [
            | inl yz ↦ absurd (cc (h.trans x y z first yz))
            | inr yz ↦ rw (insert, xz, yz, insert, xz) (ap (z ∷◌) (insert_past x y zs e))
          ]
        ]

    insert_swap :
        (x y : A) (zs : List A)
        → (c x y ≡ neutral → x ≡ y)
        → (s : Sign) → c x y ≡ s
        → insert c x (insert c y zs) ≡ insert c y (insert c x zs)
    insert_swap x y zs tie negative e = insert_past x y zs e
    insert_swap x y zs tie neutral e = rw (tie e) refl
    insert_swap x y zs tie positive e = sym (insert_past y x zs (h.flips x y ∙ ap opposite e))

    -- Where only equal elements are tied, every order of a list is sorted into one.
    pub sort-Reorders : {xs ys : List A} → Reorders xs ys → HasNoTies c xs → sort c xs ≡ sort c ys
    unfolding sort
    sort-Reorders (same xs) n = refl
    sort-Reorders (behind_head x r) n =
        ap (insert c x) (sort-Reorders r (λ a b p q. n a b (inr p) (inr q)))
    sort-Reorders (swap x y xs) n =
        insert_swap x y (sort c xs) (n x y (inl refl) (inr (inl refl))) (c x y) refl
    sort-Reorders (then_order r t) n =
        sort-Reorders r n
        ∙ sort-Reorders t (λ a b p q. n a b (Reorders-Member r a p) (Reorders-Member r b q))
