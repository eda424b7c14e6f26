-- ===== src/Types/Traffic.antt =====
-- frontend/src/lib/types.ts: what the control plane sends and accepts.
use cdn_platform.Prelude.{ℕ, Bool, Text, List}

pub record OverviewPoint : Type 0 where
  pub time : Text
  pub requests : ℕ
  pub bytes : ℕ
  pub error_requests : ℕ

pub record OverviewStatusCode : Type 0 where
  pub code : ℕ
  pub requests : ℕ

pub record OverviewSite : Type 0 where
  pub id : Text
  pub name : Text
  pub domains : List Text
  pub requests : ℕ
  pub bytes : ℕ
  pub error_requests : ℕ
  pub status_codes : List OverviewStatusCode
  pub series : List OverviewPoint

pub record OverviewTotals : Type 0 where
  pub requests : ℕ
  pub bytes : ℕ
  pub error_requests : ℕ

pub record Overview : Type 0 where
  pub from : Text
  pub to : Text
  pub bucket_seconds : ℕ
  pub totals : OverviewTotals
  pub series : List OverviewPoint
  pub status_codes : List OverviewStatusCode
  pub sites : List OverviewSite

pub record AccessLog (Num : Type 0) : Type 0 where
  pub id : Text
  pub timestamp : Text
  pub node_id : Text
  pub site_id : Text
  pub client_ip : Text
  pub host : Text
  pub scheme : Text
  pub protocol : Text
  pub method : Text
  pub path : Text
  pub status : ℕ
  pub request_bytes : ℕ
  pub bytes : ℕ
  pub duration_ms : Num
  pub upstream : Text
  pub upstream_status : Text
  pub upstream_response_time : Text
  pub cache_status : Text
  pub user_agent : Text
  pub referer : Text
  pub content_type : Text
  pub response_content_type : Text
  pub accept : Text
  pub range : Text

pub record LogPage (Num : Type 0) : Type 0 where
  pub logs : List (AccessLog Num)
  pub from : Text
  pub to : Text
  pub offset : ℕ
  pub page_size : ℕ
  pub has_more : Bool
