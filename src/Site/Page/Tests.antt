-- ===== src/Site/Page/Tests.antt =====
-- Tests of the state of the page at a site of the list.
use cdn_platform.Prelude.{◌≡◌, refl, true, [], ◌∷◌, some, Text, codes}
use cdn_platform.Types.Site.{Site}
use cdn_platform.Site.Samples.{sample_site}
use cdn_platform.Site.Draft.{SiteDraft, draft_from_site}
use cdn_platform.Site.Page.{Snapshot, initial_page, load_effect}

-- A stand-in for `JSON.stringify`.
abbrev show : SiteDraft → Text
show d = 123 ∷ d.name

abbrev shown : Snapshot
shown = record {
  site_id = some (codes "s1");
  sites = some (sample_site ∷ []);
  settings_fetched = true;
  default_ttl_seconds = some 120;
}

abbrev renamed : Site
renamed = record sample_site { name = codes "Other" }

filled : (load_effect show shown initial_page).draft ≡ draft_from_site sample_site 120
unfolding load_effect initial_page
filled = refl
