-- ===== src/Site/Operations/Tests.antt =====
-- Tests of the operations panel at a site with a running publication.
use cdn_platform.Prelude.{◌≡◌, refl, true, false, [], ◌∷◌, map, none, some, codes}
use cdn_platform.Types.Task.{DeploymentTask, TaskStatus}
use cdn_platform.Site.Samples.{sample_site, sample_node, task_with, status_with, sample_date}
use cdn_platform.Site.Task.{active_task}
use cdn_platform.Site.Operations.{Inputs, site_operations, assigned_nodes}

abbrev running : DeploymentTask
running = task_with TaskStatus.applying (codes "333")

abbrev publishing : Inputs
publishing = record {
  site = sample_site;
  nodes = sample_node ∷ [];
  tls = none;
  publish = some (status_with running);
  deletion = none;
  pending = false;
}

abbrev deleting : Inputs
deleting = record publishing { site = record sample_site { deleting = true } }

panel :
    ((site_operations sample_date publishing).publish_disabled ≡ true)
    × ((site_operations sample_date publishing).certificate_disabled ≡ false)
    × ((site_operations sample_date deleting).delete_disabled ≡ false)
unfolding site_operations active_task
panel = (refl, refl, refl)

rows :
    map (λ row. row.name) (assigned_nodes (sample_node ∷ []) sample_site)
    ≡ codes "edge" ∷ codes "n2" ∷ []
unfolding assigned_nodes
rows = refl
