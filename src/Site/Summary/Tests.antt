-- ===== src/Site/Summary/Tests.antt =====
-- The pages of a site of the list, and of one that is not there, and the theorem about them.
use cdn_platform.Prelude.{◌≡◌, refl, true, false, [], ◌∷◌, none, some, Text, codes, join, decimal}
use cdn_platform.Site.Samples.{sample_site}
use cdn_platform.Site.Draft.{SiteDraft, empty_draft}
use cdn_platform.Site.Forwards.{empty_forward}
use cdn_platform.Site.Page.{Snapshot, initial_page, load_effect}
use cdn_platform.Site.Summary.{
  page_title, page_description, loading, not_found, traffic_mode, ttl_text, ports_text,
  deleting_text,
}

abbrev show : SiteDraft → Text
show d = 123 ∷ d.name

abbrev missing : Snapshot
missing = record {
  site_id = some (codes "gone");
  sites = some (sample_site ∷ []);
  settings_fetched = true;
  default_ttl_seconds = some 60;
}

summary :
    (page_title false (some sample_site) ≡ codes "Main")
    × (page_description (some sample_site) ≡ codes "a.com · s1")
    × (ttl_text 60 (empty_draft 60) ≡ codes "60 秒（全局）")
    × (ports_text (record (empty_draft 60) { tcp_forwards = empty_forward ∷ [] }) ≡ codes "--")
    × (traffic_mode (empty_draft 60) ≡ codes "HTTP / gRPC / WS")
    × (deleting_text none ≡ codes "配置已锁定，正在撤销 DNS 并等待边缘节点确认。")
unfolding page_title page_description ttl_text ports_text traffic_mode deleting_text empty_draft
    empty_forward decimal join
summary = (refl, refl, refl, refl, refl, refl)

-- Where the list does not hold the site, the placeholder stays.
stays : (not_found missing ≡ true) × (loading false (load_effect show missing initial_page) ≡ true)
unfolding not_found loading load_effect initial_page
stays = (refl, refl)
