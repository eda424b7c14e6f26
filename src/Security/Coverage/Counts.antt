-- ===== src/Security/Coverage/Counts.antt =====
-- How the numbers relate (frontend/src/features/security/security-page.tsx).
use cdn_platform.Prelude.{
  ◌≤◌, ◌≡◌, ◌↔◌, refl, ap, Bool, true, List, [], ◌∷◌, ◌&&◌, filter, length, Option, arith,
  length-filter, All, Bool-cases, inl, inr, suc,
}
use cdn_platform.Types.Security.{SecurityOverview}
use cdn_platform.Security.Coverage.{eligible_nodes, capable_nodes, applied_nodes, is_applied}

module _ {ℓ} {A : Type ℓ} (p : A → Bool) where
  All-of-length : (xs : List A) → length (filter p xs) ≡ length xs → All (λ x. p x ≡ true) xs
  All-of-length [] e = tt
  All-of-length (x ∷ xs) e = elim (Bool-cases (p x)) [
    | inl holds ↦ (holds, All-of-length xs (omega (arith, rw holds at e)))
    | inr fails ↦ absurd (omega (arith, length-filter p xs, rw fails at e))
  ]

  length_of_All : (xs : List A) → All (λ x. p x ≡ true) xs → length (filter p xs) ≡ length xs
  length_of_All [] h = refl
  length_of_All (x ∷ xs) (hx, h) = rw hx (ap suc (length_of_All xs h))

-- The numbers never exceed each other, and the two quotients read full exactly when every eligible
-- node enforces the policies and every capable one runs the wanted version of both kinds.
pub coverage_lem :
    (overview : Option SecurityOverview)
    → (length (applied_nodes overview) ≤ length (capable_nodes overview))
      × (length (capable_nodes overview) ≤ length (eligible_nodes overview))
      × ((length (capable_nodes overview) ≡ length (eligible_nodes overview))
          ↔ All
              (λ node. (node.capable && node.rate_limit_capable) ≡ true)
              (eligible_nodes overview))
      × ((length (applied_nodes overview) ≡ length (capable_nodes overview))
          ↔ All (λ node. is_applied node ≡ true) (capable_nodes overview))
unfolding applied_nodes capable_nodes
coverage_lem overview = (
  length-filter is_applied (capable_nodes overview),
  length-filter _ (eligible_nodes overview),
  (All-of-length _ (eligible_nodes overview), length_of_All _ (eligible_nodes overview)),
  (
    All-of-length is_applied (capable_nodes overview),
    length_of_All is_applied (capable_nodes overview),
  ),
)
