-- ===== src/Security/Limits/Classes.antt =====
-- The status classes of a policy, as the control plane normalizes them
-- (internal/domain/security.go).
use cdn_platform.Prelude.{
  ℕ, ◌≡◌, ◌≢◌, refl, ap, ◌∙◌, Bool, true, false, not, any, ◌==◌, ◌||◌, ◌&&◌, List, [], ◌∷◌, All,
  Option, none, some, Bool-cases, inl, inr, arith, leb, ltb,
}
use cdn_platform.Security.RateDialog.{RatePayload, is_error_class}
use cdn_platform.Security.Limits.{
  ok, check_condition, normalize_classes, sort_ints, insert_int, class_kept, with_classes,
}

abbrev pub in_range : ℕ → Bool
in_range c = leb 2 c && leb c 5

module _ {κ} (P : ℕ → Type κ) where
  All-insert_int : (n : ℕ) (ns : List ℕ) → P n → All P ns → All P (insert_int n ns)
  unfolding insert_int
  All-insert_int n [] p h = (p, tt)
  All-insert_int n (m ∷ ms) p (q, h) = elim (Bool-cases (leb m n)) [
    | inl e ↦ rw e (q, All-insert_int n ms p h)
    | inr e ↦ rw e (p, (q, h))
  ]

  pub All-sort_ints : (ns : List ℕ) → All P ns → All P (sort_ints ns)
  unfolding sort_ints
  All-sort_ints [] h = tt
  All-sort_ints (n ∷ ns) (p, h) = All-insert_int n (sort_ints ns) p (All-sort_ints ns h)

  -- The loop succeeds on classes in range, and keeps what holds of all of them.
  normalize_classes_lem :
      (last : Option ℕ) (ns : List ℕ)
      → All (λ c. in_range c ≡ true) ns
      → All P ns
      → (kept : List ℕ) × (normalize_classes last ns ≡ some kept) × All P kept
  unfolding normalize_classes
  normalize_classes_lem last [] r h = ([], refl, tt)
  normalize_classes_lem last (c ∷ cs) (rc, r) (p, h) =
      let (more, e, hm) = normalize_classes_lem (some c) cs r h in
      let fits : (ltb c 2 || ltb 5 c) ≡ false = ground arith in
      elim (Bool-cases (class_kept last c)) [
        | inl k ↦ (c ∷ more, rw (e, fits, k), (p, hm))
        | inr k ↦ (more, rw (e, fits, k), hm)
      ]

no_other_class :
    (cs : List ℕ)
    → All (λ c. is_error_class c ≡ true) cs
    → any (λ c. not (c == 4) && not (c == 5)) cs ≡ false
no_other_class [] h = refl
no_other_class (c ∷ cs) (e, h) = rw (no_other_class cs h) (ground arith)

-- The condition of a policy is accepted, and its classes are among those given, if a ban has a
-- condition on error classes, and a condition has a class, each in range.
pub check_condition_lem :
    (p : RatePayload)
    → (p.ban_enabled ≡ true → p.response_condition_enabled ≡ true)
    → (p.response_condition_enabled ≡ true → p.response_status_classes ≢ [])
    → All (λ c. in_range c ≡ true) p.response_status_classes
    → (p.ban_enabled ≡ true → All (λ c. is_error_class c ≡ true) p.response_status_classes)
    → (kept : List ℕ) × (check_condition p ≡ ok (record p { response_status_classes = kept }))
unfolding check_condition
check_condition_lem p tied some_class range errors =
    elim (Bool-cases p.response_condition_enabled) [
      | inr off ↦ let no_ban : p.ban_enabled ≡ false = ground arith in ([], ground arith)
      | inl on ↦ classes_lem p.response_status_classes refl on
    ]
  where
    classes_lem :
        (cs : List ℕ)
        → p.response_status_classes ≡ cs
        → p.response_condition_enabled ≡ true
        → (kept : List ℕ) × (check_condition p ≡ ok (record p { response_status_classes = kept }))
    classes_lem [] e on = absurd (some_class on e)
    classes_lem (c ∷ cs) e on =
        let opened : check_condition p
            ≡ with_classes p (normalize_classes none (sort_ints (c ∷ cs))) =
          ground arith in
        let fits = All-sort_ints _ (c ∷ cs) (rw e at range) in
        elim (Bool-cases p.ban_enabled) [
          | inl ban ↦
              let (kept, ek, hk) =
                normalize_classes_lem (λ c. is_error_class c ≡ true) none _ fits
                  (All-sort_ints _ (c ∷ cs) (rw e at (errors ban))) in
              let none_other = no_other_class kept hk in
              (kept, opened ∙ ap (with_classes p) ek ∙ ground arith)
          | inr free ↦
              let (kept, ek, hk) =
                normalize_classes_lem (λ c. in_range c ≡ true) none _ fits fits in
              (kept, opened ∙ ap (with_classes p) ek ∙ ground arith)
        ]
