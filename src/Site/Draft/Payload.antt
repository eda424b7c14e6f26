-- ===== src/Site/Draft/Payload.antt =====
-- What saving the form sends (frontend/src/features/sites/site-detail-page.tsx, `sitePayload`).
use cdn_platform.Prelude.{
  ℕ, ◌≡◌, ◌⊎◌, refl, ap, Bool, true, false, ◌&&◌, [], ◌∷◌, All, Option, none, some, ◌or◌, Text,
  is_truthy, trim, ◌or_text◌, arith, if◌then◌else◌,
}
use cdn_platform.Types.Site.{Origin, Site}
use cdn_platform.Site.Draft.{
  SiteDraft, SitePayload, draft_from_site, site_payload, origin_payload, is_tls_url,
}
use cdn_platform.Site.Draft.Domains.{IsDomain, split_list-join}

-- An origin as the form can hold it: in use, and with a server name only for a TLS address. The
-- control plane leaves an empty server name out of its answers.
pub record IsEditableOrigin (o : Origin) : Type 0 where
  pub enabled : o.enabled ≡ true
  pub plain : (is_tls_url o.url ≡ true) ⊎ ((o.tls_server_name or []) ≡ [])

-- An origin as a request spells it: an absent server name is the empty one.
abbrev pub sent_origin : Origin → Origin
sent_origin o = record o { tls_server_name = some (o.tls_server_name or []) }

abbrev pub sent_backup_origin : Option Origin → Option Origin
sent_backup_origin none = none
sent_backup_origin (some o) = some (sent_origin o)

abbrev pub IsEditableBackup : Option Origin → Type 0
IsEditableBackup none = Unit
IsEditableBackup (some o) = IsEditableOrigin o × (is_truthy (trim o.url) ≡ true)

pub record IsEditable (site : Site) : Type 0 where
  pub domains : All IsDomain site.domains
  pub primary : IsEditableOrigin site.primary_origin
  pub backup : IsEditableBackup site.backup_origin

-- The site's own configuration, in the shape of a request.
abbrev pub payload_of : Site → SitePayload
payload_of site = record {
  name = site.name;
  domains = site.domains;
  node_ids = site.node_ids;
  primary_origin = sent_origin site.primary_origin;
  passthrough = site.passthrough;
  client_max_body_size_mb = site.client_max_body_size_mb;
  client_keepalive_timeout_seconds = site.client_keepalive_timeout_seconds;
  read_write_timeout_seconds = site.read_write_timeout_seconds;
  dns_ttl_seconds = site.dns_ttl_seconds;
  tcp_only = site.tcp_only;
  tcp_forwards = site.tcp_forwards;
  enabled = site.enabled;
  backup_origin = sent_backup_origin site.backup_origin;
}

or_text-nil : (s : Text) → (s or_text []) ≡ s
or_text-nil [] = refl
or_text-nil (c ∷ s) = refl

origin_payload_self :
    (o : Origin)
    → IsEditableOrigin o
    → origin_payload o.url (o.host_header or_text []) ((o.tls_server_name or []) or_text [])
      ≡ sent_origin o
origin_payload_self o h =
    ground (arith, or_text-nil o.host_header, or_text-nil (o.tls_server_name or []))

dns_ttl_lem :
    (t : Option ℕ) (ttl : ℕ)
    → (if (elim t [ none ↦ true | some n ↦ false ]) then none else some (t or ttl)) ≡ t
dns_ttl_lem none ttl = refl
dns_ttl_lem (some n) ttl = refl

backup_lem :
    (site : Site) (ttl : ℕ)
    → IsEditableBackup site.backup_origin
    → (site_payload (draft_from_site site ttl)).backup_origin
      ≡ sent_backup_origin site.backup_origin
unfolding site_payload draft_from_site
backup_lem site ttl h = go site.backup_origin h
  where
    go :
        (b : Option Origin)
        → IsEditableBackup b
        → (site_payload (draft_from_site (record site { backup_origin = b }) ttl)).backup_origin
          ≡ sent_backup_origin b
    go none h = refl
    go (some o) (h, url) = rw (or_text-nil o.url, url) (ap some (origin_payload_self o h))

-- Saving a site's form as it was filled sends the site's own configuration, for every global TTL,
-- with an absent server name of an origin as the empty one. The site's domains are not empty and
-- hold no space or comma, its origins are in use and carry no server name, or an empty one, where their address is
-- not one of TLS, and a backup origin has an address that is not blank.
pub site_payload-draft_from_site :
    (site : Site) (ttl : ℕ)
    → IsEditable site
    → site_payload (draft_from_site site ttl) ≡ payload_of site
unfolding site_payload draft_from_site
site_payload-draft_from_site site ttl h = λ i. record {
  name = site.name;
  domains = split_list-join site.domains h.domains i;
  node_ids = site.node_ids;
  primary_origin = origin_payload_self site.primary_origin h.primary i;
  passthrough = site.passthrough;
  client_max_body_size_mb = site.client_max_body_size_mb;
  client_keepalive_timeout_seconds = site.client_keepalive_timeout_seconds;
  read_write_timeout_seconds = site.read_write_timeout_seconds;
  dns_ttl_seconds = dns_ttl_lem site.dns_ttl_seconds ttl i;
  tcp_only = site.tcp_only;
  tcp_forwards = site.tcp_forwards;
  enabled = site.enabled;
  backup_origin = backup_lem site ttl h.backup i;
}

-- An origin that is sent is in use, and names a TLS server only for a TLS address.
pub record IsSafeOrigin (o : Origin) : Type 0 where
  pub enabled : o.enabled ≡ true
  pub plain : (is_tls_url o.url ≡ true) ⊎ (o.tls_server_name ≡ some [])

pub record IsSafePayload (draft : SiteDraft) (p : SitePayload) : Type 0 where
  pub primary : IsSafeOrigin p.primary_origin
  pub backup :
      (o : Origin) → p.backup_origin ≡ some o → IsSafeOrigin o × (is_truthy (trim o.url) ≡ true)
  pub inherits : (draft.inherit_dns_ttl ≡ false) ⊎ (p.dns_ttl_seconds ≡ none)
  pub own_ttl : (draft.inherit_dns_ttl ≡ true) ⊎ (p.dns_ttl_seconds ≡ some draft.dns_ttl_seconds)
  pub no_backup : (draft.backup_enabled ≡ true) ⊎ (p.backup_origin ≡ none)

origin_payload-IsSafeOrigin : (url host sni : Text) → IsSafeOrigin (origin_payload url host sni)
origin_payload-IsSafeOrigin url host sni = record { enabled = refl; plain = ground arith }

sent_backup :
    (on : Bool) (url host sni : Text) (o : Origin)
    → (if on && is_truthy (trim url) then some (origin_payload url host sni) else none) ≡ some o
    → (o ≡ origin_payload url host sni) × (is_truthy (trim url) ≡ true)
sent_backup on url host sni o e = ground arith

-- Whatever the form holds, the request names a TLS server for no plain address, holds a backup
-- origin only with an address and only if the backup switch is on, and leaves the TTL to the
-- global setting exactly as the inherit switch says.
pub site_payload-IsSafePayload : (draft : SiteDraft) → IsSafePayload draft (site_payload draft)
unfolding site_payload
site_payload-IsSafePayload draft = record {
  primary = origin_payload-IsSafeOrigin _ _ _;
  backup = λ o e.
      let (same, url) =
        sent_backup draft.backup_enabled draft.backup_url draft.backup_host draft.backup_sni o e in
      rw same (origin_payload-IsSafeOrigin _ _ _, url);
  inherits = ground arith;
  own_ttl = ground arith;
  no_backup = ground arith;
}
