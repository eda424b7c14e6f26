-- ===== src/Types/Node.antt =====
-- frontend/src/lib/types.ts: what the control plane sends and accepts.
use cdn_platform.Prelude.{ℕ, Bool, Text, List, Option}

pub data NodeStatus : Type 0 where
  pending active draining revoked uninstalling uninstalled : NodeStatus

pub record SystemInfo : Type 0 where
  pub name : Text
  pub version : Text

pub data UpgradeStatus : Type 0 where
  queued applying succeeded failed : UpgradeStatus

pub record NodeUpgradeTask : Type 0 where
  pub id : Text
  pub node_id : Text
  pub status : UpgradeStatus
  pub source_sha256 : Option Text
  pub target_sha256 : Text
  pub error_code : Option Text
  pub detail : Option Text
  pub deadline_at : Text
  pub started_at : Option Text
  pub completed_at : Option Text
  pub created_at : Text
  pub updated_at : Text

pub record NginxCapacity : Type 0 where
  pub worker_processes : ℕ
  pub worker_connections : ℕ
  pub worker_rlimit_nofile : ℕ

pub record Node : Type 0 where
  pub id : Text
  pub name : Text
  pub public_ipv4 : Text
  pub cache_max_size_gb : Option ℕ
  pub nginx_capacity : NginxCapacity
  pub status : NodeStatus
  pub monitor_auto_paused : Bool
  pub capabilities : List Text
  pub agent_version : Option Text
  pub agent_sha256 : Option Text
  pub active_upgrade_task_id : Option Text
  pub last_heartbeat_at : Option Text
  pub applied_version : ℕ
  pub last_error : Option Text
  pub created_at : Text
  pub updated_at : Text
  pub target_agent_sha256 : Option Text
  pub target_agent_version : Option Text
  pub upgrade_capable : Bool
  pub upgrade_up_to_date : Bool
  pub can_upgrade : Bool
  pub upgrade_blocker : Option Text
  pub upgrade_task : Option NodeUpgradeTask

pub record MachineReport (Num : Type 0) : Type 0 where
  pub distribution : Text
  pub version : Text
  pub uptime_seconds : ℕ
  pub load_1 : Num
  pub load_5 : Num
  pub load_15 : Num
  pub cpu_usage_percent : Num
  pub cpu_logical_cores : ℕ
  pub memory_used_bytes : ℕ
  pub memory_total_bytes : ℕ
  pub disk_used_bytes : ℕ
  pub disk_total_bytes : ℕ
  pub network_interface : Text
  pub network_rx_bytes_per_second : Num
  pub network_tx_bytes_per_second : Num
  pub sample_seconds : Num
  pub collected_at : Text

pub record NodeMachine (Num : Type 0) : Type 0 where
  pub available : Bool
  pub unavailable_reason : Option Text
  pub stale : Bool
  pub report : Option (MachineReport Num)

pub record NodeDetailSite : Type 0 where
  pub id : Text
  pub name : Text
  pub domains : List Text
  pub enabled : Bool
  pub published : Bool
  pub cache_enabled : Bool

pub record NodeCacheSettings : Type 0 where
  pub default_size_gb : ℕ
  pub override_size_gb : Option ℕ
  pub effective_size_gb : ℕ

pub record NodeDetail (Num : Type 0) : Type 0 where
  pub node : Node
  pub machine : NodeMachine Num
  pub cache : NodeCacheSettings
  pub sites : List NodeDetailSite

pub record CacheOutcome : Type 0 where
  pub status : Text
  pub requests : ℕ
  pub bytes : ℕ

pub record CacheStorage : Type 0 where
  pub available : Bool
  pub unavailable_reason : Option Text
  pub used_bytes : ℕ
  pub total_bytes : ℕ
  pub collected_at : Option Text
  pub stale : Bool

pub record NodeCacheStatus (Num : Type 0) : Type 0 where
  pub available : Bool
  pub unavailable_reason : Option Text
  pub from : Text
  pub to : Text
  pub last_seen_at : Option Text
  pub requests : ℕ
  pub bytes : ℕ
  pub cache_lookups : ℕ
  pub cache_hits : ℕ
  pub cache_misses : ℕ
  pub bypasses : ℕ
  pub uncached : ℕ
  pub hit_rate : Num
  pub statuses : List CacheOutcome
  pub storage : CacheStorage

pub record UninstallJob : Type 0 where
  pub node_id : Text
  pub status : Text
  pub previous_status : NodeStatus
  pub token_expires_at : Option Text
  pub ready_at : Text
  pub affected_site_ids : List Text
  pub detail : Option Text
  pub forced : Bool
  pub created_at : Text
  pub updated_at : Text

pub record UninstallBlocker : Type 0 where
  pub code : Text
  pub site_id : Option Text
  pub site_name : Option Text
  pub detail : Text

pub record NodeUninstallStatus : Type 0 where
  pub node : Node
  pub job : Option UninstallJob
  pub blockers : List UninstallBlocker
  pub can_generate_command : Bool
  pub ready_in_seconds : ℕ
  pub uninstall_command : Option Text
