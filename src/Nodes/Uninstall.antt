-- ===== src/Nodes/Uninstall.antt =====
-- The panel that removes a node (`UninstallPanel` of
-- frontend/src/features/nodes/node-detail-page.tsx).
pub mod Control
pub mod Agreement
use cdn_platform.Prelude.{
  ℕ, Bool, true, false, not, ◌&&◌, ◌||◌, List, [], ◌∷◌, includes, Option, none, some, Text, codes,
  ◌===◌, ◌==◌, is_truthy, is_some, if◌then◌else◌, ◌or◌,
}
use cdn_platform.Types.Node.{Node, NodeStatus, UninstallJob, UninstallBlocker, NodeUninstallStatus}

pub data Action : Type 0 where
  prepare command cancel force delete : Action

abbrev job_of : Option NodeUninstallStatus → Option UninstallJob
job_of none = none
job_of (some status) = status.job

-- A canceled job counts as none.
abbrev pub unless_canceled : Option UninstallJob → Option UninstallJob
unless_canceled none = none
unless_canceled (some job) = if job.status === codes "canceled" then none else some job

unfoldable pub current_job : Option NodeUninstallStatus → Option UninstallJob
unfolding ◌===◌
current_job status = unless_canceled (job_of status)

abbrev pub can_prepare : NodeStatus → Bool
can_prepare NodeStatus.draining = true
can_prepare NodeStatus.revoked = true
can_prepare _ = false

abbrev pub is_empty {ℓ} : {A : Type ℓ} → List A → Bool
is_empty [] = true
is_empty (x ∷ xs) = false

abbrev pub was_seen : Option Text → Bool
was_seen none = false
was_seen (some t) = is_truthy t

abbrev pub deletable_status : NodeStatus → Bool → Bool
deletable_status NodeStatus.uninstalled fresh = true
deletable_status NodeStatus.pending fresh = fresh
deletable_status _ fresh = false

unfoldable pub deletable : Node → Bool
deletable node =
    deletable_status node.status
      (not (was_seen node.last_heartbeat_at) && node.applied_version == 0)

abbrev pub can_stop : List Text
can_stop = codes "preparing" ∷ codes "ready" ∷ codes "failed" ∷ []

abbrev pub can_force : List Text
can_force = codes "preparing" ∷ codes "ready" ∷ codes "running" ∷ codes "failed" ∷ []

abbrev pub status_in : List Text → Option UninstallJob → Bool
status_in statuses none = false
status_in statuses (some job) = includes statuses job.status

abbrev generates : Option NodeUninstallStatus → Bool
generates none = false
generates (some status) = status.can_generate_command

-- Nothing blocks the removal, and no time is left to wait.
abbrev pub is_clear : Option NodeUninstallStatus → Bool
is_clear none = false
is_clear (some status) = is_empty status.blockers && status.ready_in_seconds == 0

-- Whether the button of an action is there.
unfoldable pub is_shown : Option NodeUninstallStatus → Action → Bool
unfolding current_job includes
is_shown status Action.prepare = not (is_some (current_job status))
is_shown status Action.command = is_some (current_job status) && generates status
is_shown status Action.cancel = status_in can_stop (current_job status)
is_shown status Action.force = is_clear status && status_in can_force (current_job status)
is_shown status Action.delete = true

-- Whether it can be pressed where it is there.
unfoldable pub is_enabled : Node → Bool → Action → Bool
unfolding deletable
is_enabled node pending Action.prepare = can_prepare node.status && not pending
is_enabled node pending Action.delete = deletable node && not pending
is_enabled node pending _ = not pending

unfoldable pub is_offered : Node → Option NodeUninstallStatus → Bool → Action → Bool
unfolding is_shown is_enabled
is_offered node status pending action = is_shown status action && is_enabled node pending action

-- The hint that the node has to be paused or revoked first.
unfoldable pub shows_hint : Node → Option NodeUninstallStatus → Bool
unfolding current_job deletable
shows_hint node status =
    not (can_prepare node.status) && (not (is_some (current_job status)) && not (deletable node))

-- `CanGenerateCommand` of `buildNodeUninstallStatus`.
unfoldable pub can_generate_command : NodeUninstallStatus → Bool
unfolding includes
can_generate_command status =
    is_empty status.blockers && (status.ready_in_seconds == 0 && status_in can_stop status.job)
