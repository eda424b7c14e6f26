-- ===== src/Types/Security.antt =====
-- frontend/src/lib/types.ts: what the control plane sends and accepts.
use cdn_platform.Prelude.{ℕ, Bool, Text, List, Option}
use cdn_platform.Types.Node.{NodeStatus}

pub data PolicyAction : Type 0 where
  block ban : PolicyAction

pub record SecurityPolicy : Type 0 where
  pub id : Text
  pub builtin : Bool
  pub name : Text
  pub enabled : Bool
  pub pattern : Text
  pub action : PolicyAction
  pub ban_duration_seconds : Option ℕ
  pub priority : ℕ
  pub created_at : Text
  pub updated_at : Text

pub record RateLimitPolicy : Type 0 where
  pub id : Text
  pub name : Text
  pub enabled : Bool
  pub key : Text
  pub requests_per_second : ℕ
  pub response_condition_enabled : Bool
  pub response_status_classes : Option (List ℕ)
  pub ban_enabled : Bool
  pub ban_after_consecutive_429 : ℕ
  pub ban_duration_seconds : ℕ
  pub created_at : Text
  pub updated_at : Text

pub record SecurityBan : Type 0 where
  pub ip : Text
  pub policy_id : Option Text
  pub policy_name : Option Text
  pub trigger_node_id : Option Text
  pub host : Option Text
  pub path : Option Text
  pub method : Option Text
  pub expires_at : Text
  pub created_at : Text
  pub updated_at : Text

pub data EventAction : Type 0 where
  block ban : EventAction

pub record SecurityEvent : Type 0 where
  pub id : Option Text
  pub node_id : Option Text
  pub policy_id : Text
  pub policy_name : Option Text
  pub client_ip : Text
  pub host : Option Text
  pub path : Text
  pub method : Option Text
  pub action : EventAction
  pub observed_at : Text
  pub ban_expires_at : Option Text

pub record SecurityNode : Type 0 where
  pub id : Text
  pub name : Text
  pub status : NodeStatus
  pub capable : Bool
  pub configured : Bool
  pub rate_limit_capable : Bool
  pub rate_limit_configured : Bool
  pub desired_version : ℕ
  pub applied_version : ℕ
  pub last_error : Option Text

pub record SecurityOverview : Type 0 where
  pub policies : List SecurityPolicy
  pub rate_limit_policies : List RateLimitPolicy
  pub bans : List SecurityBan
  pub active_ban_count : ℕ
  pub events : List SecurityEvent
  pub nodes : List SecurityNode
  pub deployment_error : Option Text
