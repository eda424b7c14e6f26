-- ===== src/Types/Settings.antt =====
-- frontend/src/lib/types.ts: what the control plane sends and accepts.
use cdn_platform.Prelude.{ℕ, Bool, Text, List}

pub record Branding : Type 0 where
  pub name : Text
  pub subtitle : Text
  pub logo_data_url : Text

pub record CacheSettings : Type 0 where
  pub default_size_gb : ℕ

pub record DnsSettings : Type 0 where
  pub default_ttl_seconds : ℕ

pub record CloudflareSettings : Type 0 where
  pub source : Text
  pub configured : Bool
  pub override_configured : Bool
  pub environment_configured : Bool

pub record SmtpSettings : Type 0 where
  pub enabled : Bool
  pub host : Text
  pub port : ℕ
  pub username : Text
  pub from_address : Text
  pub recipients : List Text
  pub notification_categories : List Text
  pub security : Text
  pub source : Text
  pub override_configured : Bool
  pub password_configured : Bool
  pub environment_configured : Bool

pub record BackupSettings : Type 0 where
  pub repository : Text
  pub access_key_id : Text
  pub region : Text
  pub backup_time : Text
  pub random_delay_seconds : ℕ
  pub source : Text
  pub configured : Bool
  pub override_configured : Bool
  pub secret_access_key_configured : Bool
  pub restic_password_configured : Bool
  pub environment_configured : Bool

pub record Settings : Type 0 where
  pub branding : Branding
  pub cache : CacheSettings
  pub dns : DnsSettings
  pub cloudflare : CloudflareSettings
  pub smtp : SmtpSettings
  pub backup : BackupSettings
