-- ===== src/Types/Site.antt =====
-- frontend/src/lib/types.ts: what the control plane sends and accepts.
use cdn_platform.Prelude.{ℕ, Bool, Text, List, Option}

pub record Origin : Type 0 where
  pub url : Text
  pub host_header : Text
  pub tls_server_name : Option Text
  pub enabled : Bool

pub record TcpForward : Type 0 where
  pub name : Text
  pub listen_port : ℕ
  pub listen_tls : Bool
  pub upstream_host : Text
  pub upstream_port : ℕ
  pub upstream_tls : Bool
  pub upstream_tls_server_name : Option Text
  pub connect_timeout_seconds : ℕ
  pub idle_timeout_seconds : ℕ

pub record Site : Type 0 where
  pub id : Text
  pub name : Text
  pub zone_id : Text
  pub domains : List Text
  pub node_ids : List Text
  pub primary_origin : Origin
  pub backup_origin : Option Origin
  pub stream_paths : List Text
  pub passthrough : Bool
  pub client_max_body_size_mb : ℕ
  pub client_keepalive_timeout_seconds : ℕ
  pub read_write_timeout_seconds : ℕ
  pub dns_ttl_seconds : Option ℕ
  pub tcp_only : Bool
  pub tcp_forwards : List TcpForward
  pub cache_generation : ℕ
  pub config_version : ℕ
  pub published : Bool
  pub enabled : Bool
  pub deleting : Bool
  pub created_at : Text
  pub updated_at : Text
