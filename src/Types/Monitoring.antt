-- ===== src/Types/Monitoring.antt =====
-- frontend/src/lib/types.ts: what the control plane sends and accepts.
use cdn_platform.Prelude.{ℕ, Bool, Text, List, Option}
use cdn_platform.Types.Node.{NodeStatus}

pub record MonitoringTarget : Type 0 where
  pub id : Text
  pub name : Text
  pub address : Text
  pub enabled : Bool
  pub created_at : Text
  pub updated_at : Text

pub record MonitoringProbeResult (Num : Type 0) : Type 0 where
  pub target_id : Text
  pub target_name : Text
  pub address : Text
  pub attempts : ℕ
  pub successful_attempts : ℕ
  pub average_latency_ms : Num
  pub error : Option Text
  pub checked_at : Text

pub record MonitoringNode (Num : Type 0) : Type 0 where
  pub node_id : Text
  pub name : Text
  pub public_ipv4 : Text
  pub status : NodeStatus
  pub monitor_auto_paused : Bool
  pub capable : Bool
  pub score : Option Num
  pub success_rate : Option Num
  pub average_latency_ms : Option Num
  pub consecutive_abnormal : ℕ
  pub last_checked_at : Option Text
  pub stale : Bool
  pub results : List (MonitoringProbeResult Num)

pub record MonitoringOverview (Num : Type 0) : Type 0 where
  pub targets : List MonitoringTarget
  pub nodes : List (MonitoringNode Num)
  pub interval_seconds : ℕ
  pub attempts_per_round : ℕ
  pub healthy_score : Num
  pub auto_pause_after : ℕ

pub data MonitoringHistoryRange : Type 0 where
  last_1h last_6h last_12h last_24h last_7d : MonitoringHistoryRange

pub record MonitoringHistoryPoint (Num : Type 0) : Type 0 where
  pub time : Text
  pub attempts : ℕ
  pub successful_attempts : ℕ
  pub success_rate : Num
  pub average_latency_ms : Option Num
  pub failed_rounds : ℕ

pub record MonitoringHistorySeries (Num : Type 0) : Type 0 where
  pub target_id : Text
  pub name : Text
  pub address : Text
  pub points : List (MonitoringHistoryPoint Num)

pub record MonitoringHistoryNode : Type 0 where
  pub id : Text
  pub name : Text
  pub public_ipv4 : Text
  pub status : NodeStatus
  pub monitor_auto_paused : Bool

pub record MonitoringHistory (Num : Type 0) : Type 0 where
  pub available : Bool
  pub unavailable_reason : Option Text
  pub node : MonitoringHistoryNode
  pub range : MonitoringHistoryRange
  pub from : Text
  pub to : Text
  pub bucket_seconds : ℕ
  pub series : List (MonitoringHistorySeries Num)
