-- ===== src/Site/Draft.antt =====
-- The form's draft, what it is filled from, and the payload that saving it sends
-- (frontend/src/features/sites/site-detail-page.tsx).
pub mod Domains
pub mod Payload
mod Tests
use cdn_platform.Prelude.{
  ℕ, Bool, true, false, ◌&&◌, ◌||◌, List, [], ◌∷◌, map, filter, Option, none, some, ◌or◌, is_some,
  Text, codes, is_truthy, ◌or_text◌, starts_with_ignoring_case, trim, split_on, join, ◌==◌,
  if◌then◌else◌,
}
use cdn_platform.Types.Site.{Origin, TcpForward, Site}

pub record SiteDraft : Type 0 where
  pub name : Text
  pub domains : Text
  pub node_ids : List Text
  pub primary_url : Text
  pub primary_host : Text
  pub primary_sni : Text
  pub backup_enabled : Bool
  pub backup_url : Text
  pub backup_host : Text
  pub backup_sni : Text
  pub passthrough : Bool
  pub client_max_body_size_mb : ℕ
  pub client_keepalive_timeout_seconds : ℕ
  pub read_write_timeout_seconds : ℕ
  pub inherit_dns_ttl : Bool
  pub dns_ttl_seconds : ℕ
  pub tcp_only : Bool
  pub tcp_forwards : List TcpForward
  pub enabled : Bool

unfoldable pub empty_draft : ℕ → SiteDraft
empty_draft ttl = record {
  name = [];
  domains = [];
  node_ids = [];
  primary_url = codes "https://";
  primary_host = [];
  primary_sni = [];
  backup_enabled = false;
  backup_url = [];
  backup_host = [];
  backup_sni = [];
  passthrough = false;
  client_max_body_size_mb = 128;
  client_keepalive_timeout_seconds = 120;
  read_write_timeout_seconds = 120;
  inherit_dns_ttl = true;
  dns_ttl_seconds = ttl;
  tcp_only = false;
  tcp_forwards = [];
  enabled = true;
}

-- `site.backup_origin?.field || ""`
abbrev backup_text : Option Origin → (Origin → Text) → Text
backup_text none f = []
backup_text (some o) f = f o or_text []

-- The limits of a site are numbers by its type, so the defaults behind `??` are never taken; the
-- copies of the node list and of the forwards are the lists themselves.
unfoldable pub draft_from_site : Site → ℕ → SiteDraft
draft_from_site site ttl = record {
  name = site.name;
  domains = join (codes ", ") site.domains;
  node_ids = site.node_ids;
  primary_url = site.primary_origin.url;
  primary_host = site.primary_origin.host_header or_text [];
  primary_sni = (site.primary_origin.tls_server_name or []) or_text [];
  backup_enabled = is_some site.backup_origin;
  backup_url = backup_text site.backup_origin (λ o. o.url);
  backup_host = backup_text site.backup_origin (λ o. o.host_header);
  backup_sni = backup_text site.backup_origin (λ o. o.tls_server_name or []);
  passthrough = site.passthrough;
  client_max_body_size_mb = site.client_max_body_size_mb;
  client_keepalive_timeout_seconds = site.client_keepalive_timeout_seconds;
  read_write_timeout_seconds = site.read_write_timeout_seconds;
  inherit_dns_ttl = elim site.dns_ttl_seconds [ none ↦ true | some t ↦ false ];
  dns_ttl_seconds = site.dns_ttl_seconds or ttl;
  tcp_only = site.tcp_only;
  tcp_forwards = site.tcp_forwards;
  enabled = site.enabled;
}

-- `[\n,]`
abbrev pub is_separator : ℕ → Bool
is_separator c = c == 10 || c == 44

unfoldable pub split_list : Text → List Text
split_list value = filter is_truthy (map trim (split_on is_separator value))

-- `/^(https|wss|grpcs):/i`
unfoldable pub is_tls_url : Text → Bool
is_tls_url url =
    starts_with_ignoring_case (codes "https:") url
    || starts_with_ignoring_case (codes "wss:") url
    || starts_with_ignoring_case (codes "grpcs:") url

-- The body of the request that saves a site.
pub record SitePayload : Type 0 where
  pub name : Text
  pub domains : List Text
  pub node_ids : List Text
  pub primary_origin : Origin
  pub passthrough : Bool
  pub client_max_body_size_mb : ℕ
  pub client_keepalive_timeout_seconds : ℕ
  pub read_write_timeout_seconds : ℕ
  pub dns_ttl_seconds : Option ℕ
  pub tcp_only : Bool
  pub tcp_forwards : List TcpForward
  pub enabled : Bool
  pub backup_origin : Option Origin

abbrev pub origin_payload : Text → Text → Text → Origin
origin_payload url host sni = record {
  url = url;
  host_header = host;
  tls_server_name = some (if is_tls_url url then sni else []);
  enabled = true;
}

unfoldable pub site_payload : SiteDraft → SitePayload
site_payload draft = record {
  name = draft.name;
  domains = split_list draft.domains;
  node_ids = draft.node_ids;
  primary_origin = origin_payload draft.primary_url draft.primary_host draft.primary_sni;
  passthrough = draft.passthrough;
  client_max_body_size_mb = draft.client_max_body_size_mb;
  client_keepalive_timeout_seconds = draft.client_keepalive_timeout_seconds;
  read_write_timeout_seconds = draft.read_write_timeout_seconds;
  dns_ttl_seconds = if draft.inherit_dns_ttl then none else some draft.dns_ttl_seconds;
  tcp_only = draft.tcp_only;
  tcp_forwards = draft.tcp_forwards;
  enabled = draft.enabled;
  backup_origin =
      if draft.backup_enabled && is_truthy (trim draft.backup_url)
      then some (origin_payload draft.backup_url draft.backup_host draft.backup_sni)
      else none;
}
