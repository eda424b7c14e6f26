-- ===== src/Site/Allowlist/Groups.antt =====
-- Every address of the allowlist is shown (frontend/src/features/sites/site-detail-page.tsx).
use mathlib.Core.List.{Perm}
use mathlib.Core.List.Perm
use mathlib.Core.List.{perm_middle}
use cdn_platform.Prelude.{
  ℕ, suc, ◌≡◌, ◌⊎◌, refl, ap, Bool, not, List, [], ◌∷◌, ◌++◌, map, filter, Option, none, some,
  Bool-cases, inl, inr, Text, codes, decimal, arith,
}
use cdn_platform.Site.Allowlist.{
  Allowlist, AllowlistNode, Assignment, entries, nodes_or_legacy, current_nodes,
  pending_removal_nodes, legacy_entries, is_published_only,
}

partition-Perm {ℓ} :
    {A : Type ℓ} (p : A → Bool) (xs : List A) → Perm (filter (λ x. not (p x)) xs ++ filter p xs) xs
partition-Perm p [] = Perm.refl []
partition-Perm p (x ∷ xs) = elim (Bool-cases (p x)) [
  | inl e ↦ rw e (Perm.trans (perm_middle _ _) (Perm.cons x (partition-Perm p xs)))
  | inr e ↦ rw e (Perm.cons x (partition-Perm p xs))
]

-- The two groups of the dialog hold every entry exactly once.
pub groups-Perm :
    (a : Option Allowlist) → Perm (current_nodes a ++ pending_removal_nodes a) (entries a)
unfolding current_nodes pending_removal_nodes
groups-Perm a = partition-Perm (λ n. is_published_only n.assignment) (entries a)

legacy_cidrs : (i : ℕ) (cidrs : List Text) → map (λ n. n.ipv4_cidr) (legacy_entries i cidrs) ≡ cidrs
unfolding legacy_entries
legacy_cidrs i [] = refl
legacy_cidrs i (c ∷ cs) = ap (c ∷◌) (legacy_cidrs (suc i) cs)

legacy_current :
    (i : ℕ) (cidrs : List Text)
    → (filter (λ n. not (is_published_only n.assignment)) (legacy_entries i cidrs)
        ≡ legacy_entries i cidrs)
      × (filter (λ n. is_published_only n.assignment) (legacy_entries i cidrs) ≡ [])
unfolding legacy_entries
legacy_current i [] = (refl, refl)
legacy_current i (c ∷ cs) =
    let rest = legacy_current (suc i) cs in
    let first : AllowlistNode = record {
      node_id = codes "legacy-" ++ decimal i;
      node_name = codes "边缘节点";
      ipv4_cidr = c;
      assignment = Assignment.current;
    } in
    (ap (first ∷◌) rest.0, rest.1)

-- An answer that names no node shows each of its addresses, in order, as one of the present
-- configuration, and none as waiting for removal.
pub legacy_groups :
    (a : Allowlist)
    → (a.nodes ≡ none) ⊎ (a.nodes ≡ some [])
    → (map (λ n. n.ipv4_cidr) (current_nodes (some a)) ≡ a.ipv4_cidrs)
      × (pending_removal_nodes (some a) ≡ [])
unfolding current_nodes pending_removal_nodes entries
legacy_groups a h =
    let e : nodes_or_legacy a.nodes a.ipv4_cidrs ≡ legacy_entries 0 a.ipv4_cidrs = ground arith in
    let groups = legacy_current 0 a.ipv4_cidrs in
    (rw (e, groups.0) (legacy_cidrs 0 a.ipv4_cidrs), rw e groups.1)
