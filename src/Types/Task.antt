-- ===== src/Types/Task.antt =====
-- frontend/src/lib/types.ts: what the control plane sends and accepts.
use cdn_platform.Prelude.{ℕ, Bool, Text, List, Option}

pub data TaskStatus : Type 0 where
  queued dispatching applying succeeded partial failed rolled_back : TaskStatus

pub record DeploymentTask : Type 0 where
  pub id : Text
  pub kind : Text
  pub site_id : Option Text
  pub status : TaskStatus
  pub detail : Option Text
  pub deadline_at : Option Text
  pub created_at : Text
  pub updated_at : Text

pub record CertificateSiteStatus : Type 0 where
  pub site_id : Text
  pub site_name : Text
  pub domains : List Text
  pub enabled : Bool
  pub published : Bool
  pub deleting : Bool
  pub needs_certificate : Bool
  pub certificate_present : Bool
  pub certificate_updated_at : Option Text
  pub not_after : Option Text
  pub renewal_due_at : Option Text
  pub published_after_certificate : Bool
  pub task : Option DeploymentTask

pub record CertificateOverview : Type 0 where
  pub renewal_window_days : ℕ
  pub reconcile_interval_seconds : ℕ
  pub sites : List CertificateSiteStatus

pub data PublishNodeStatus : Type 0 where
  pending succeeded failed timed_out : PublishNodeStatus

pub record PublishNode : Type 0 where
  pub node_id : Text
  pub node_name : Text
  pub target_version : ℕ
  pub status : PublishNodeStatus
  pub error_code : Option Text
  pub detail : Option Text

pub record PublishStatus : Type 0 where
  pub task : Option DeploymentTask
  pub nodes : List PublishNode
