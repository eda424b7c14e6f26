-- ===== src/Site/Task.antt =====
-- The tasks of a site and how often they are asked for
-- (frontend/src/features/sites/site-detail-page.tsx).
pub mod Current
use cdn_platform.Prelude.{
  ℕ, Bool, true, false, ◌&&◌, ◌||◌, Option, none, some, Text, leb, if◌then◌else◌,
}
use cdn_platform.Types.Site.{Site}
use cdn_platform.Types.Task.{DeploymentTask, TaskStatus}

abbrev pub is_active_status : TaskStatus → Bool
is_active_status TaskStatus.queued = true
is_active_status TaskStatus.dispatching = true
is_active_status TaskStatus.applying = true
is_active_status _ = false

-- `null` and `undefined` are `none`.
unfoldable pub active_task : Option DeploymentTask → Bool
active_task none = false
active_task (some task) = is_active_status task.status

-- Milliseconds to the next poll of the certificate and publish status, and of a deletion, where
-- `none` is `false`.
unfoldable pub status_interval : Option DeploymentTask → ℕ
unfolding active_task
status_interval task = if active_task task then 2000 else 20000

unfoldable pub deletion_interval : Option DeploymentTask → Option ℕ
unfolding active_task
deletion_interval task = if active_task task then some 2000 else none

-- Both times are finite, and the first is not before the second.
abbrev pub not_before : Option ℕ → Option ℕ → Bool
not_before (some a) (some b) = leb b a
not_before _ _ = false

-- `Date.parse` is a parameter: milliseconds, or `none` where it gives no finite number.
module _ (parse_date : Text → Option ℕ) where
  unfoldable pub task_matches_current_site : Option DeploymentTask → Site → Bool
  unfolding active_task
  task_matches_current_site none site = false
  task_matches_current_site (some task) site =
      if site.deleting || (site.published || active_task (some task))
      then true
      else not_before (parse_date task.created_at) (parse_date site.updated_at)
