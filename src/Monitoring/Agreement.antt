-- ===== src/Monitoring/Agreement.antt =====
-- The numbers at the top and the rows below (frontend/src/features/monitoring/monitoring-page.tsx).
use cdn_platform.Prelude.{
  ◌≡◌, fun_ext, refl, sym, ap, Bool, true, false, not, ◌&&◌, List, [], ◌∷◌, filter, Option, none,
  some, arith, ◌∙◌, if◌then◌else◌,
}
use cdn_platform.Types.Monitoring.{MonitoringOverview}
use cdn_platform.Monitoring.{
  MonitoringState, capable_nodes, healthy_nodes, is_healthy, monitoring_state, scored_state,
  score_reaches,
}

abbrev pub says_healthy : MonitoringState → Bool
says_healthy MonitoringState.healthy = true
says_healthy _ = false

abbrev pub says_upgrade : MonitoringState → Bool
says_upgrade MonitoringState.to_upgrade = true
says_upgrade _ = false

filter-filter {ℓ} :
    {A : Type ℓ} (p q : A → Bool) (xs : List A)
    → filter p (filter q xs) ≡ filter (λ x. q x && p x) xs
filter-filter p q [] = refl
filter-filter p q (x ∷ xs) = ground (arith, filter-filter p q xs)

filter_alike {ℓ} :
    {A : Type ℓ} (p q : A → Bool) (xs : List A) → ((x : A) → p x ≡ q x) → filter p xs ≡ filter q xs
filter_alike p q xs h = ap (λ f. filter f xs) (fun_ext h)

module _ {Num : Type 0} (at_least : Num → Num → Bool) where
  healthy_lem :
      (line : Num) (capable old : Bool) (score : Option Num)
      → says_healthy
          (if not capable then MonitoringState.to_upgrade else scored_state at_least line old score)
        ≡ (capable && (not old && score_reaches at_least line score))
  healthy_lem line capable old none = ground arith
  healthy_lem line capable old (some score) = ground arith

  upgrade_lem :
      (line : Num) (capable old : Bool) (score : Option Num)
      → capable
        ≡ not (
            says_upgrade (
              if not capable
              then MonitoringState.to_upgrade
              else scored_state at_least line old score))
  upgrade_lem line capable old none = ground arith
  upgrade_lem line capable old (some score) = ground arith

  -- The number of normal nodes and of capable nodes at the top are the numbers of rows that say so.
  pub rows-healthy_nodes :
      (overview : MonitoringOverview Num)
      → (healthy_nodes at_least (some overview)
          ≡ filter
              (λ n. says_healthy (monitoring_state at_least overview.healthy_score n))
              overview.nodes)
        × (capable_nodes at_least (some overview)
            ≡ filter
                (λ n. not (says_upgrade (monitoring_state at_least overview.healthy_score n)))
                overview.nodes)
  unfolding healthy_nodes capable_nodes monitoring_state
  rows-healthy_nodes overview =
      let line = overview.healthy_score in
      (
        filter-filter (is_healthy at_least line) (λ n. n.capable) overview.nodes
            ∙ filter_alike _ _ overview.nodes
                (λ n. sym (healthy_lem line n.capable n.stale n.score)),
        filter_alike _ _ overview.nodes (λ n. upgrade_lem line n.capable n.stale n.score),
      )
