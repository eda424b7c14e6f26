-- ===== src/Monitoring.antt =====
-- The monitoring page (frontend/src/features/monitoring/monitoring-page.tsx): its numbers, the state
-- of each row, and the dialog that adds a target.
pub mod Agreement
pub mod History
pub mod Targets
mod Tests
use cdn_platform.Prelude.{
  ℕ, Bool, true, false, not, ◌&&◌, ◌||◌, List, [], ◌++◌, ◌∷◌, filter, map, length, Option, none,
  some, Text, trim, is_truthy, if◌then◌else◌,
}
use cdn_platform.Types.Monitoring.{
  MonitoringTarget, MonitoringProbeResult, MonitoringNode, MonitoringOverview,
}

-- What the row of a node says about its monitoring.
pub data MonitoringState : Type 0 where
  to_upgrade awaiting stale healthy abnormal : MonitoringState

unfoldable pub enabled_targets :
    {Num : Type 0} → Option (MonitoringOverview Num) → List MonitoringTarget
enabled_targets none = []
enabled_targets (some overview) = filter (λ (t : MonitoringTarget). t.enabled) overview.targets

-- The comparison `≥` of scores is an argument.
module _ {Num : Type 0} (at_least : Num → Num → Bool) where
  unfoldable pub capable_nodes : Option (MonitoringOverview Num) → List (MonitoringNode Num)
  capable_nodes none = []
  capable_nodes (some overview) = filter (λ node. node.capable) overview.nodes

  abbrev pub score_reaches : Num → Option Num → Bool
  score_reaches line none = false
  score_reaches line (some score) = at_least score line

  abbrev pub is_healthy : Num → MonitoringNode Num → Bool
  is_healthy line node = not node.stale && score_reaches line node.score

  -- `healthyNodes`; without data there is no node to compare.
  unfoldable pub healthy_nodes : Option (MonitoringOverview Num) → List (MonitoringNode Num)
  unfolding capable_nodes
  healthy_nodes none = []
  healthy_nodes (some overview) =
      filter (is_healthy overview.healthy_score) (capable_nodes (some overview))

  unfoldable pub auto_paused : Option (MonitoringOverview Num) → Option ℕ
  auto_paused none = none
  auto_paused (some overview) =
      some (length (filter (λ node. node.monitor_auto_paused) overview.nodes))

  -- The rows of the results: each with its node.
  unfoldable pub result_rows :
      List (MonitoringNode Num) → List (MonitoringNode Num × MonitoringProbeResult Num)
  result_rows [] = []
  result_rows (node ∷ nodes) = map (λ result. (node, result)) node.results ++ result_rows nodes

  abbrev pub scored_state : Num → Bool → Option Num → MonitoringState
  scored_state line old none = MonitoringState.awaiting
  scored_state line old (some score) =
      if old
      then MonitoringState.stale
      else if at_least score line
      then MonitoringState.healthy
      else MonitoringState.abnormal

  -- `monitoringState` of `NodeRow`
  unfoldable pub monitoring_state : Num → MonitoringNode Num → MonitoringState
  monitoring_state line node =
      if not node.capable
      then MonitoringState.to_upgrade
      else scored_state line node.stale node.score

-- `disabled` of the button that adds a target.
unfoldable pub create_disabled : Text → Text → Bool → Bool
unfolding trim
create_disabled name address pending =
    not (is_truthy (trim name)) || (not (is_truthy (trim address)) || pending)
