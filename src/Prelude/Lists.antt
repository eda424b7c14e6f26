-- ===== src/Prelude/Lists.antt =====
-- Lists measured and indexed by native numbers: the array methods that the console calls.
use Prim.Native.Nat.{ℕ, zero, suc, ◌+◌, ◌-◌, ◌≤◌, ◌<◌, min}
use mathlib.Core.Path.{◌≡◌, refl, ap, ◌∙◌}
use mathlib.Core.Logic.{◌≢◌}
use mathlib.Core.Bool.{Bool, true, false, ◌&&◌, ◌||◌}
use mathlib.Core.List.{List, [], ◌∷◌, ◌++◌, map}
use mathlib.Core.Option.{Option, none, some}
use native.Mathlib.Numerals.{unary_clauses}
use native.Mathlib.Omega.{arith}
use cdn_platform.Prelude.Tests.{if◌then◌else◌}

module _ {ℓ} {A : Type ℓ} where
  abbrev pub length : List A → ℕ
  length [] = 0
  length (x ∷ xs) = suc (length xs)

  abbrev pub get_elem? : List A → ℕ → Option A
  get_elem? [] i = none
  get_elem? (x ∷ xs) zero = some x
  get_elem? (x ∷ xs) (suc i) = get_elem? xs i

  abbrev pub take : ℕ → List A → List A
  take zero xs = []
  take (suc n) [] = []
  take (suc n) (x ∷ xs) = x ∷ take n xs

  abbrev pub drop : ℕ → List A → List A
  drop zero xs = xs
  drop (suc n) [] = []
  drop (suc n) (x ∷ xs) = drop n xs

  -- `xs.slice(from, to)` with `from` and `to` at least 0.
  abbrev pub slice : ℕ → ℕ → List A → List A
  slice from to xs = take (to - from) (drop from xs)

  abbrev pub filter : (A → Bool) → List A → List A
  filter p [] = []
  filter p (x ∷ xs) = let rest = filter p xs in if p x then x ∷ rest else rest

  abbrev pub any : (A → Bool) → List A → Bool
  any p [] = false
  any p (x ∷ xs) = p x || any p xs

  abbrev pub all : (A → Bool) → List A → Bool
  all p [] = true
  all p (x ∷ xs) = p x && all p xs

  abbrev pub find? : (A → Bool) → List A → Option A
  find? p [] = none
  find? p (x ∷ xs) = let rest = find? p xs in if p x then some x else rest

  -- `xs.filter((_, current) => current !== index)`
  abbrev pub erase_idx : List A → ℕ → List A
  erase_idx [] i = []
  erase_idx (x ∷ xs) zero = xs
  erase_idx (x ∷ xs) (suc i) = x ∷ erase_idx xs i

  -- `xs.map((item, current) => current === index ? f(item) : item)`
  abbrev pub modify : List A → ℕ → (A → A) → List A
  modify [] i f = []
  modify (x ∷ xs) zero f = f x ∷ xs
  modify (x ∷ xs) (suc i) f = x ∷ modify xs i f

  pub length-append : (xs ys : List A) → length (xs ++ ys) ≡ length xs + length ys
  length-append [] ys = omega arith
  length-append (x ∷ xs) ys = omega (arith, length-append xs ys)

  pub length-take : (n : ℕ) (xs : List A) → length (take n xs) ≡ min n (length xs)
  length-take zero xs = omega arith
  length-take (suc n) [] = omega arith
  length-take (suc n) (x ∷ xs) = omega (arith, length-take n xs)

  pub length-drop : (n : ℕ) (xs : List A) → length (drop n xs) ≡ length xs - n
  length-drop zero xs = omega arith
  length-drop (suc n) [] = omega arith
  length-drop (suc n) (x ∷ xs) = omega (arith, length-drop n xs)

  pub length-modify : (xs : List A) (i : ℕ) (f : A → A) → length (modify xs i f) ≡ length xs
  length-modify [] i f = refl
  length-modify (x ∷ xs) zero f = refl
  length-modify (x ∷ xs) (suc i) f = ap suc (length-modify xs i f)

  pub length-erase_idx :
      (xs : List A) (i : ℕ) → i < length xs → suc (length (erase_idx xs i)) ≡ length xs
  length-erase_idx [] i h = elim h [ ]
  length-erase_idx (x ∷ xs) zero h = refl
  length-erase_idx (x ∷ xs) (suc i) h = ap suc (length-erase_idx xs i (omega arith))

  pub length-erase_idx-le : (xs : List A) (i : ℕ) → length (erase_idx xs i) ≤ length xs
  length-erase_idx-le [] i = omega arith
  length-erase_idx-le (x ∷ xs) zero = omega arith
  length-erase_idx-le (x ∷ xs) (suc i) = omega (arith, length-erase_idx-le xs i)

  pub length-filter : (p : A → Bool) (xs : List A) → length (filter p xs) ≤ length xs
  length-filter p [] = omega arith
  length-filter p (x ∷ xs) = ground (arith, length-filter p xs)

  pub get_elem?-slice :
      (n : ℕ) (xs : List A) (i j : ℕ)
      → i < n
      → get_elem? (take n (drop j xs)) i ≡ get_elem? xs (j + i)
  get_elem?-slice zero xs i j h = elim h [ ]
  get_elem?-slice (suc n) [] i zero h = refl
  get_elem?-slice (suc n) (x ∷ xs) zero zero h = refl
  get_elem?-slice (suc n) (x ∷ xs) (suc i) zero h = ground (arith, get_elem?-slice n xs i 0)
  get_elem?-slice (suc n) [] i (suc j) h = ground arith
  get_elem?-slice (suc n) (x ∷ xs) i (suc j) h = ground (arith, get_elem?-slice (suc n) xs i j)

module _ {ℓ} {A : Type ℓ} where
  pub take-append-drop : (n : ℕ) (xs : List A) → take n xs ++ drop n xs ≡ xs
  take-append-drop zero xs = refl
  take-append-drop (suc n) [] = refl
  take-append-drop (suc n) (x ∷ xs) = ap (x ∷◌) (take-append-drop n xs)

  pub drop-drop : (m n : ℕ) (xs : List A) → drop m (drop n xs) ≡ drop (n + m) xs
  drop-drop m zero xs = ground arith
  drop-drop zero (suc n) [] = simp unary_clauses
  drop-drop (suc m) (suc n) [] = simp unary_clauses
  drop-drop m (suc n) (x ∷ xs) =
      let e : suc (n + m) ≡ suc n + m = omega arith in
      drop-drop m n xs ∙ ap (λ k. drop k (x ∷ xs)) e

  pub get_elem?-modify_self :
      (xs : List A) (i : ℕ) (f : A → A) {x : A}
      → get_elem? xs i ≡ some x
      → get_elem? (modify xs i f) i ≡ some (f x)
  get_elem?-modify_self [] i f h = cc
  get_elem?-modify_self (y ∷ xs) zero f h = cc
  get_elem?-modify_self (y ∷ xs) (suc i) f h = get_elem?-modify_self xs i f h

  pub get_elem?-modify_ne :
      (xs : List A) (i j : ℕ) (f : A → A) → i ≢ j → get_elem? (modify xs i f) j ≡ get_elem? xs j
  get_elem?-modify_ne [] i j f h = refl
  get_elem?-modify_ne (x ∷ xs) zero zero f h = absurd (h refl)
  get_elem?-modify_ne (x ∷ xs) zero (suc j) f h = refl
  get_elem?-modify_ne (x ∷ xs) (suc i) zero f h = refl
  get_elem?-modify_ne (x ∷ xs) (suc i) (suc j) f h =
      get_elem?-modify_ne xs i j f (λ e. h (ap suc e))

  pub erase_idx-take-drop : (xs : List A) (i : ℕ) → erase_idx xs i ≡ take i xs ++ drop (suc i) xs
  erase_idx-take-drop [] zero = refl
  erase_idx-take-drop [] (suc i) = refl
  erase_idx-take-drop (x ∷ xs) zero = refl
  erase_idx-take-drop (x ∷ xs) (suc i) = ap (x ∷◌) (erase_idx-take-drop xs i)

  pub length-map {κ} : {B : Type κ} (f : A → B) (xs : List A) → length (map f xs) ≡ length xs
  length-map f [] = refl
  length-map f (x ∷ xs) = ap suc (length-map f xs)

module _ {ℓ} {A : Type ℓ} where
  pub take-of-le : (n : ℕ) (xs : List A) → length xs ≤ n → take n xs ≡ xs
  take-of-le zero [] h = refl
  take-of-le zero (x ∷ xs) h = absurd (omega arith)
  take-of-le (suc n) [] h = refl
  take-of-le (suc n) (x ∷ xs) h = ap (x ∷◌) (take-of-le n xs (omega arith))

  pub take-add : (a b : ℕ) (xs : List A) → take a xs ++ take b (drop a xs) ≡ take (a + b) xs
  take-add zero b xs = let e : b ≡ 0 + b = omega arith in ap (λ k. take k xs) e
  take-add (suc a) zero [] = let e : suc a ≡ suc a + 0 = omega arith in ap (λ k. take k []) e
  take-add (suc a) (suc b) [] =
      let e : suc (a + suc b) ≡ suc a + suc b = omega arith in ap (λ k. take k []) e
  take-add (suc a) b (x ∷ xs) =
      let e : suc (a + b) ≡ suc a + b = omega arith in
      ap (x ∷◌) (take-add a b xs) ∙ ap (λ k. take k (x ∷ xs)) e

  pub lt-length_of_get_elem? :
      (xs : List A) (i : ℕ) {x : A} → get_elem? xs i ≡ some x → i < length xs
  lt-length_of_get_elem? [] i h = cc
  lt-length_of_get_elem? (y ∷ xs) zero h = omega arith
  lt-length_of_get_elem? (y ∷ xs) (suc i) h = omega (arith, lt-length_of_get_elem? xs i h)
