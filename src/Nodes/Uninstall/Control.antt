-- ===== src/Nodes/Uninstall/Control.antt =====
-- The checks of the control plane on the requests that remove a node (internal/control/uninstall.go,
-- internal/store/uninstall.go), and on its state at that time. Failures of its database are not
-- modelled.
use cdn_platform.Prelude.{
  Bool, true, false, not, ◌&&◌, ◌||◌, Option, none, some, Text, ◌===◌, ◌==◌, is_some, if◌then◌else◌,
  includes,
}
use cdn_platform.Types.Node.{NodeStatus, NodeUninstallStatus}
use cdn_platform.Nodes.Uninstall.{
  Action, unless_canceled, can_prepare, was_seen, can_stop, can_force, status_in, is_empty,
  can_generate_command,
}

pub data Refusal : Type 0 where
  not_paused no_provider dns_failed upgrade_active upgrade_unfinished : Refusal
  not_prepared not_clear bad_control_url uninstall_not_found uninstall_not_active
        uninstall_running :
      Refusal
  wrong_name assigned not_deletable : Refusal

-- What the answers depend on beside the status of the removal: whether there is a provider for DNS and
-- whether it removes the node from every zone, whether an upgrade task of the node is queued or
-- applying, whether CONTROL_PUBLIC_URL is an HTTPS URL, whether a site or a publication holds the node,
-- and whether it has no certificate and no reported state.
pub record ControlState : Type 0 where
  pub has_provider : Bool
  pub removes_dns : Bool
  pub upgrades : Bool
  pub has_url : Bool
  pub is_assigned : Bool
  pub never_enrolled : Bool

-- The DNS records are removed before the upgrades are looked at.
unfoldable pub check_upgrade : ControlState → NodeUninstallStatus → Option Refusal
check_upgrade k status =
    if k.upgrades
    then some upgrade_active
    else if was_seen status.node.active_upgrade_task_id
    then some upgrade_unfinished
    else none

-- A removal that is there, and not canceled, is answered with its status.
unfoldable pub check_prepare : ControlState → NodeUninstallStatus → Option Refusal
unfolding check_upgrade ◌===◌
check_prepare k status =
    if not (can_prepare status.node.status)
    then some not_paused
    else if is_some (unless_canceled status.job)
    then none
    else if not k.has_provider
    then some no_provider
    else if not k.removes_dns
    then some dns_failed
    else check_upgrade k status

unfoldable pub check_command : ControlState → NodeUninstallStatus → Option Refusal
unfolding can_generate_command
check_command k status =
    if not (is_some status.job)
    then some not_prepared
    else if not (can_generate_command status)
    then some not_clear
    else if not k.has_url
    then some bad_control_url
    else none

unfoldable pub check_cancel : NodeUninstallStatus → Option Refusal
unfolding includes
check_cancel status =
    if status_in can_stop status.job
    then none
    else if not (is_some status.job)
    then some uninstall_not_found
    else if not (status_in can_force status.job)
    then some uninstall_not_active
    else some uninstall_running

unfoldable pub check_force : Text → NodeUninstallStatus → Option Refusal
unfolding includes ◌===◌
check_force confirmation status =
    if not (confirmation === status.node.name)
    then some wrong_name
    else if not (status_in can_force status.job)
        || (not (is_empty status.blockers) || not (status.ready_in_seconds == 0))
    then some not_clear
    else none

abbrev pub pending_deletable : ControlState → NodeStatus → Bool → Bool
pending_deletable k NodeStatus.pending fresh = fresh && k.never_enrolled
pending_deletable k NodeStatus.uninstalled fresh = true
pending_deletable k _ fresh = false

unfoldable pub check_delete : ControlState → Text → NodeUninstallStatus → Option Refusal
unfolding ◌===◌
check_delete k confirmation status =
    if not (confirmation === status.node.name)
    then some wrong_name
    else if k.is_assigned
    then some assigned
    else if not (
        pending_deletable k status.node.status
          (not (is_some status.node.last_heartbeat_at) && status.node.applied_version == 0))
    then some not_deletable
    else none

unfoldable pub check : ControlState → Text → NodeUninstallStatus → Action → Option Refusal
unfolding check_prepare check_command check_cancel check_force check_delete
check k confirmation status Action.prepare = check_prepare k status
check k confirmation status Action.command = check_command k status
check k confirmation status Action.cancel = check_cancel status
check k confirmation status Action.force = check_force confirmation status
check k confirmation status Action.delete = check_delete k confirmation status
