-- ===== src/SiteList/Tests.antt =====
-- The row of a site with a forward.
use cdn_platform.Prelude.{◌≡◌, starts_with_ignoring_case, refl, true, [], none, some, codes}
use cdn_platform.Types.Task.{TaskStatus}
use cdn_platform.Site.Samples.{sample_site, task_with, status_with, sample_date}
use cdn_platform.Site.Operations.{Inputs, site_operations}
use cdn_platform.SiteList.{SiteBadge, site_badge, site_protocol, scheme, publish_interval}

abbrev shown : Inputs
shown = record {
  site = sample_site;
  nodes = [];
  tls = none;
  publish = none;
  deletion = none;
  pending = true;
}

all_of_it : Unit {0}
unfolding site_badge site_protocol scheme publish_interval site_operations starts_with_ignoring_case
all_of_it = tt

rows :
    (scheme (codes "GRPCS://a:1") ≡ codes "grpcs")
    × (publish_interval (some (status_with (task_with TaskStatus.queued []))) ≡ 2000)
    × (site_badge sample_site (some (status_with (task_with TaskStatus.queued [])))
        ≡ SiteBadge.of_task TaskStatus.queued)
unfolding all_of_it
rows = (refl, refl, refl)

is_cacheable : (site_operations sample_date shown).cacheable ≡ true
unfolding all_of_it
is_cacheable = refl
