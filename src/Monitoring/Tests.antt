-- ===== src/Monitoring/Tests.antt =====
-- Two nodes, one below the line.
use cdn_platform.Prelude.{
  ℕ, ◌≡◌, refl, Bool, true, false, [], ◌∷◌, length, Option, none, some, Text, codes, leb,
}
use cdn_platform.Types.Node.{NodeStatus}
use cdn_platform.Types.Monitoring.{MonitoringNode, MonitoringOverview}
use cdn_platform.Monitoring.{MonitoringState, healthy_nodes, monitoring_state, create_disabled}

abbrev probed : Text → Option ℕ → MonitoringNode ℕ
probed id score = record {
  node_id = id;
  name = [];
  public_ipv4 = [];
  status = NodeStatus.active;
  monitor_auto_paused = false;
  capable = true;
  score = score;
  success_rate = none;
  average_latency_ms = none;
  consecutive_abnormal = 0;
  last_checked_at = none;
  stale = false;
  results = [];
}

abbrev overview : MonitoringOverview ℕ
overview = record {
  targets = [];
  nodes =
      probed (codes "a") (some 92) ∷ probed (codes "b") (some 40) ∷ probed (codes "c") none ∷ [];
  interval_seconds = 60;
  attempts_per_round = 3;
  healthy_score = 80;
  auto_pause_after = 3;
}

abbrev at_least : ℕ → ℕ → Bool
at_least a b = leb b a

counts :
    (length (healthy_nodes at_least (some overview)) ≡ 1)
    × (monitoring_state at_least 80 (probed [] (some 40)) ≡ MonitoringState.abnormal)
    × (create_disabled (codes " ") (codes "a:1") false ≡ true)
unfolding healthy_nodes monitoring_state create_disabled
counts = (refl, refl, refl)
