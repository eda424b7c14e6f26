-- ===== src/Site/Draft/Tests.antt =====
-- Tests of the draft, and its theorems at a site with two domains and a backup origin.
use cdn_platform.Prelude.{
  ◌≡◌, refl, inl, inr, true, false, [], ◌∷◌, All, none, some, codes, join, split_on, trim,
  starts_with_ignoring_case,
}
use cdn_platform.Types.Site.{Origin, Site}
use cdn_platform.Site.Draft.{empty_draft, draft_from_site, is_tls_url, site_payload, split_list}
use cdn_platform.Site.Draft.Domains.{IsDomain}
use cdn_platform.Site.Draft.Payload.{
  IsEditable, IsSafePayload, payload_of, site_payload-draft_from_site, site_payload-IsSafePayload,
}

draft : Unit {0}
unfolding draft_from_site site_payload split_list is_tls_url join split_on trim
    starts_with_ignoring_case
draft = tt

typed_domains : split_list (codes " a.com ,\n, b.org") ≡ codes "a.com" ∷ codes "b.org" ∷ []
unfolding draft
typed_domains = refl

schemes : (is_tls_url (codes "HTTPS://x") ≡ true) × (is_tls_url (codes "http://x") ≡ false)
unfolding draft
schemes = (refl, refl)

abbrev main_origin : Origin
main_origin = record {
  url = codes "https://o.com";
  host_header = codes "o.com";
  tls_server_name = some (codes "o.com");
  enabled = true;
}

abbrev backup : Origin
backup = record {
  url = codes "http://b.com";
  host_header = [];
  tls_server_name = none;
  enabled = true;
}

abbrev site : Site
site = record {
  id = codes "s1";
  name = codes "Main";
  zone_id = codes "z";
  domains = codes "a.com" ∷ codes "b.org" ∷ [];
  node_ids = codes "n1" ∷ [];
  primary_origin = main_origin;
  backup_origin = some backup;
  stream_paths = [];
  passthrough = false;
  client_max_body_size_mb = 128;
  client_keepalive_timeout_seconds = 120;
  read_write_timeout_seconds = 60;
  dns_ttl_seconds = none;
  tcp_only = false;
  tcp_forwards = [];
  cache_generation = 1;
  config_version = 2;
  published = true;
  enabled = true;
  deleting = false;
  created_at = codes "2026-01-01";
  updated_at = codes "2026-01-02";
}

site-IsDomain : All IsDomain site.domains
site-IsDomain = (
  record {
    not_empty = refl;
    no_space = (refl, (refl, (refl, (refl, (refl, tt)))));
    no_separator = (refl, (refl, (refl, (refl, (refl, tt)))));
  },
  (
    record {
      not_empty = refl;
      no_space = (refl, (refl, (refl, (refl, (refl, tt)))));
      no_separator = (refl, (refl, (refl, (refl, (refl, tt)))));
    },
    tt,
  ),
)

site-IsEditable : IsEditable site
unfolding draft
site-IsEditable = record {
  domains = site-IsDomain;
  primary = record { enabled = refl; plain = inl refl };
  backup = (record { enabled = refl; plain = inr refl }, refl);
}

site_payload-draft_from_site_example : site_payload (draft_from_site site 60) ≡ payload_of site
site_payload-draft_from_site_example = site_payload-draft_from_site site 60 site-IsEditable

site_payload-IsSafePayload_example : IsSafePayload (empty_draft 60) (site_payload (empty_draft 60))
site_payload-IsSafePayload_example = site_payload-IsSafePayload (empty_draft 60)
