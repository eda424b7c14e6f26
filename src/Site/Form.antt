-- ===== src/Site/Form.antt =====
-- The form of a site, frontend/src/features/sites/site-detail-page.tsx (`BasicSettings`,
-- `TrafficSettings`, the fields of `TCPForwards`, the button that saves): its edits, what the browser
-- asks of its fields, and what a press on the button sends. A field of numbers holds a whole number;
-- a field's `maxLength` only stops the typing, and is left out.
pub mod Bounds
mod Tests
use cdn_platform.Prelude.{
  ℕ, ◌+◌, Bool, true, false, not, ◌&&◌, ◌||◌, List, all, Option, none, some, Text, codes, ◌===◌,
  is_truthy, leb, if◌then◌else◌,
}
use cdn_platform.Types.Site.{TcpForward}
use cdn_platform.Site.Draft.{SiteDraft, SitePayload, site_payload}
use cdn_platform.Site.Forwards.{forward_page}

-- What `onChange` of the two cards with an origin passes on.
pub record OriginValues : Type 0 where
  pub url : Text
  pub host : Text
  pub sni : Text

pub data Edit : Type 0 where
  set_name set_domains : Text → Edit
  set_enabled set_backup_enabled set_passthrough set_inherit_dns_ttl : Bool → Edit
  choose_tab : Text → Edit
  set_primary set_backup : OriginValues → Edit
  set_body_size set_keepalive set_read_write set_dns_ttl : ℕ → Edit

unfoldable pub edit : Edit → SiteDraft → SiteDraft
unfolding ◌===◌
edit (set_name v) d = record d { name = v }
edit (set_domains v) d = record d { domains = v }
edit (set_enabled b) d = record d { enabled = b }
edit (choose_tab v) d = record d { tcp_only = v === codes "tcp" }
edit (set_primary v) d = record d {
  primary_url = v.url;
  primary_host = v.host;
  primary_sni = v.sni;
}
edit (set_backup_enabled b) d = record d { backup_enabled = b }
edit (set_backup v) d = record d { backup_url = v.url; backup_host = v.host; backup_sni = v.sni }
edit (set_body_size n) d = record d { client_max_body_size_mb = n }
edit (set_keepalive n) d = record d { client_keepalive_timeout_seconds = n }
edit (set_read_write n) d = record d { read_write_timeout_seconds = n }
edit (set_passthrough b) d = record d { passthrough = b }
edit (set_inherit_dns_ttl b) d = record d { inherit_dns_ttl = b }
edit (set_dns_ttl n) d = record d { dns_ttl_seconds = n }

abbrev pub in_range : ℕ → ℕ → ℕ → Bool
in_range low high n = leb low n && leb n high

-- `required`, `min` and `max` of the fields of a row; a port 0 is shown as an empty field.
unfoldable pub is_valid_row : TcpForward → Bool
is_valid_row f =
    (is_truthy f.name && in_range 1 65535 f.listen_port)
    && (is_truthy f.upstream_host && in_range 1 65535 f.upstream_port)

-- The fields of the tab for HTTP; a disabled field is not asked.
unfoldable pub is_valid_http : SiteDraft → Bool
is_valid_http d =
    (is_truthy d.primary_url && in_range 1 1024 d.client_max_body_size_mb)
    && ((in_range 15 3600 d.client_keepalive_timeout_seconds && leb 1 d.read_write_timeout_seconds)
        && (d.inherit_dns_ttl || in_range 60 300 d.dns_ttl_seconds))

-- Only fields on the screen are asked: those of the chosen tab, and of the rows of the shown page of
-- forwards, where the pager's state holds `requested`.
unfoldable pub is_valid : ℕ → SiteDraft → Bool
unfolding is_valid_row is_valid_http forward_page
is_valid requested d =
    (is_truthy d.name && (d.tcp_only || is_valid_http d))
    && all is_valid_row (forward_page d requested).items

-- `save.isPending || site?.deleting`
unfoldable pub save_disabled : Bool → Bool → Bool
save_disabled pending deleting = pending || deleting

-- What a press on the button that saves sends, if it sends anything; the key Enter in a field is a
-- press on that button, as it is the form's first of type `submit`.
unfoldable pub submit : Bool → Bool → ℕ → SiteDraft → Option SitePayload
unfolding save_disabled is_valid site_payload
submit pending deleting requested d =
    if save_disabled pending deleting || not (is_valid requested d)
    then none
    else some (site_payload d)
