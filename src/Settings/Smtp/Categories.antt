-- ===== src/Settings/Smtp/Categories.antt =====
-- The switches of the notification categories (frontend/src/features/settings/settings-page.tsx).
use cdn_platform.Prelude.{
  ◌≡◌, ◌≢◌, refl, Bool, true, false, not, ◌&&◌, ◌||◌, List, [], ◌∷◌, ◌++◌, filter, Text, ◌===◌,
  eq_of_===, ===-self, includes, All, All-filter, Distinct, Bool-cases, inl, inr, arith,
  if◌then◌else◌,
}
use cdn_platform.Settings.Smtp.{unique, set_notification_category}

same_test : (x d : Text) (f : Text → Bool) → (x === d) ≡ true → f x ≡ f d
same_test x d f h = rw (eq_of_=== x d h) refl

===_turned : (s t : Text) → (s === t) ≡ (t === s)
===_turned s t = elim (Bool-cases (s === t)) [
  | inl e ↦ let same : s ≡ t = eq_of_=== s t e in rw same refl
  | inr e ↦ elim (Bool-cases (t === s)) [
    | inl back ↦
        let itself : (s === s) ≡ true = ===-self s in
        let same : (s === t) ≡ (s === s) = rw (eq_of_=== t s back) refl in absurd (cc)
    | inr back ↦ rw (e, back) refl
  ]
]

includes-unique :
    (seen xs : List Text) (d : Text)
    → includes (unique seen xs) d ≡ (includes xs d && not (includes seen d))
unfolding includes unique
includes-unique seen [] d = refl
includes-unique seen (x ∷ xs) d = elim (Bool-cases (includes seen x)) [
  | inl e ↦ elim (Bool-cases (x === d)) [
    | inl here ↦
        let found : includes seen x ≡ includes seen d = same_test x d (includes seen) here in
        let shown : includes seen d ≡ true = cc in
        rw (unique, e, includes-unique seen xs d, here, shown) (ground arith)
    | inr other ↦ rw (unique, e, includes-unique seen xs d, other) refl
  ]
  | inr e ↦ elim (Bool-cases (x === d)) [
    | inl here ↦
        let found : includes seen x ≡ includes seen d = same_test x d (includes seen) here in
        let missing : includes seen d ≡ false = cc in rw (unique, e, includes, here, missing) refl
    | inr other ↦ rw (unique, e, includes, includes-unique (x ∷ seen) xs d, other) (ground arith)
  ]
]

includes-append :
    (xs ys : List Text) (d : Text) → includes (xs ++ ys) d ≡ (includes xs d || includes ys d)
unfolding includes
includes-append [] ys d = refl
includes-append (x ∷ xs) ys d = ground (arith, includes-append xs ys d)

includes-without :
    (c d : Text) (xs : List Text)
    → includes (filter (λ x. not (x === c)) xs) d ≡ (includes xs d && not (c === d))
unfolding includes
includes-without c d [] = refl
includes-without c d (x ∷ xs) = elim (Bool-cases (x === c)) [
  | inl e ↦
      let same : (x === d) ≡ (c === d) = rw (eq_of_=== x c e) refl in
      rw (e, includes-without c d xs, same) (ground arith)
  | inr e ↦ elim (Bool-cases (x === d)) [
    | inl here ↦
        let same : (x === c) ≡ (d === c) = rw (eq_of_=== x d here) refl in
        let turned : (c === d) ≡ (d === c) = ===_turned c d in
        let apart : (c === d) ≡ false = cc in rw (e, includes, here, apart) refl
    | inr other ↦ rw (e, includes, includes-without c d xs, other) refl
  ]
]

-- After a switch has been set, the categories hold the switched one exactly when it was switched on,
-- and every other one exactly when they held it before.
pub includes-set_notification_category :
    (c d : Text) (checked : Bool) (current : List Text)
    → includes (set_notification_category c checked current) d
      ≡ (if c === d then checked else includes current d)
unfolding set_notification_category includes
includes-set_notification_category c d true current =
    rw (includes-unique [] (current ++ c ∷ []) d, includes-append current (c ∷ []) d) (ground arith)
includes-set_notification_category c d false current =
    rw (includes-without c d current) (ground arith)

missing_All : (x : Text) (xs : List Text) → includes xs x ≡ false → All (λ y. x ≢ y) xs
unfolding includes
missing_All x [] h = tt
missing_All x (y ∷ ys) h = (
  λ e.
      let itself : (y === y) ≡ true = ===-self y in
      let same : (y === x) ≡ (y === y) = rw e refl in ground arith,
  missing_All x ys (ground arith),
)

shut : (x : Text) (seen xs : List Text) → (includes xs x && not (includes (x ∷ seen) x)) ≡ false
unfolding includes
shut x seen xs = rw (===-self x) (ground arith)

unique-Distinct : (seen xs : List Text) → Distinct (unique seen xs)
unfolding unique
unique-Distinct seen [] = tt
unique-Distinct seen (x ∷ xs) = elim (Bool-cases (includes seen x)) [
  | inl e ↦ rw (unique, e) (unique-Distinct seen xs)
  | inr e ↦
      rw (unique, e)
        (
          missing_All x _ (rw (includes-unique (x ∷ seen) xs x) (shut x seen xs)),
          unique-Distinct (x ∷ seen) xs,
        )
]

filter-Distinct : (p : Text → Bool) (xs : List Text) → Distinct xs → Distinct (filter p xs)
filter-Distinct p [] h = tt
filter-Distinct p (x ∷ xs) (first, rest) = elim (Bool-cases (p x)) [
  | inl e ↦ rw e (All-filter (λ y. x ≢ y) p xs first, filter-Distinct p xs rest)
  | inr e ↦ rw e (filter-Distinct p xs rest)
]

-- Setting a switch keeps the categories distinct.
pub set_notification_category-Distinct :
    (c : Text) (checked : Bool) (current : List Text)
    → Distinct current
    → Distinct (set_notification_category c checked current)
unfolding set_notification_category
set_notification_category-Distinct c true current h = unique-Distinct [] (current ++ c ∷ [])
set_notification_category-Distinct c false current h =
    filter-Distinct (λ x. not (x === c)) current h
