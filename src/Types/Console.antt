-- ===== src/Types/Console.antt =====
-- frontend/src/lib/types.ts: what the control plane sends and accepts.
use cdn_platform.Prelude.{ℕ, Text, List, Option}

pub data Severity : Type 0 where
  info success warning error : Severity

pub record Message : Type 0 where
  pub id : Text
  pub severity : Severity
  pub category : Text
  pub title : Text
  pub body : Option Text
  pub resource_type : Option Text
  pub resource_id : Option Text
  pub read_at : Option Text
  pub created_at : Text

pub record MessagePage : Type 0 where
  pub messages : List Message
  pub unread_count : ℕ

pub record BackupRunStatus : Type 0 where
  pub version : ℕ
  pub state : Text
  pub attempt : ℕ
  pub max_attempts : ℕ
  pub host : Option Text
  pub started_at : Text
  pub updated_at : Text
  pub finished_at : Option Text
  pub error : Option Text

pub record RestoreSnapshot : Type 0 where
  pub id : Text
  pub short_id : Text
  pub time : Text
  pub hostname : Option Text
  pub paths : Option (List Text)
  pub tags : Option (List Text)

pub record RestoreJob : Type 0 where
  pub version : ℕ
  pub id : Text
  pub snapshot_id : Text
  pub snapshot_short_id : Text
  pub state : Text
  pub phase : Option Text
  pub detail : Option Text
  pub error : Option Text
  pub schema_version : Option ℕ
  pub created_at : Text
  pub updated_at : Text
  pub ready_at : Option Text
  pub finished_at : Option Text
