-- ===== src/Site/Operations/Buttons.antt =====
-- When the buttons of the panel can be pressed
-- (frontend/src/features/sites/site-detail-page.tsx).
use cdn_platform.Prelude.{ℕ, ◌≡◌, ◌≢◌, ◌↔◌, ◌⊎◌, true, false, [], Option, some, Text, arith}
use cdn_platform.Types.Task.{DeploymentTask}
use cdn_platform.Site.Task.{active_task, task_matches_current_site}
use cdn_platform.Site.Task.Current.{Reason, task_matches_iff}
use cdn_platform.Site.Operations.{
  Inputs, site_operations, publish_task, task_of, certificate_of, operation_nodes, has_failed,
}

module _ (parse_date : Text → Option ℕ) (p : Inputs) where
  -- A site that is being deleted can be deleted again exactly when nothing is pending, the deletion
  -- does not run and no certificate is being issued.
  pub retry_deletion_iff :
      p.site.deleting ≡ true
      → ((site_operations parse_date p).delete_disabled ≡ false) ↔ (
          (p.pending ≡ false)
          × (active_task (task_of p.deletion) ≡ false)
          × (active_task (certificate_of p.tls) ≡ false))
  unfolding site_operations
  retry_deletion_iff h = ground arith

  -- The task that is shown is the one of the running operation, and there is a reason to take it
  -- for the present configuration.
  pub visible_publish_task-Reason :
      (task : DeploymentTask)
      → (site_operations parse_date p).visible_publish_task ≡ some task
      → (publish_task p ≡ some task) × Reason parse_date task p.site
  unfolding site_operations
  visible_publish_task-Reason task h =
      let shown : publish_task p ≡ some task = ground arith in
      let current : task_matches_current_site parse_date (publish_task p) p.site ≡ true =
        ground arith in
      (shown, (task_matches_iff parse_date task p.site).0 (rw shown at current))

  -- The targets are shown only for a current task that runs or has failed, and never as an empty
  -- table.
  pub show_publish_targets_lem :
      (site_operations parse_date p).show_publish_targets ≡ true
      → (operation_nodes p ≢ [])
        × ((site_operations parse_date p).visible_publish_task ≡ publish_task p)
        × ((active_task (publish_task p) ≡ true) ⊎ (has_failed (publish_task p) ≡ true))
  unfolding site_operations
  show_publish_targets_lem h = ground arith
