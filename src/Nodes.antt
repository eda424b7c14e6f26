-- ===== src/Nodes.antt =====
-- The nodes: the list (frontend/src/features/nodes/nodes-page.tsx), here, and the page of one node
-- (frontend/src/features/nodes/node-detail-page.tsx), in the children.
pub mod Uninstall
pub mod Quota
pub mod Page
pub mod Forms
mod Tests
use cdn_platform.Prelude.{
  ℕ, Bool, true, false, List, [], ◌∷◌, any, filter, length, Option, none, some, Text, codes, ◌===◌,
  if◌then◌else◌, ◌or_text◌, ◌or◌,
}
use cdn_platform.Types.Node.{Node, NodeStatus, NodeUpgradeTask, UpgradeStatus}

abbrev is_upgrading : UpgradeStatus → Bool
is_upgrading UpgradeStatus.queued = true
is_upgrading UpgradeStatus.applying = true
is_upgrading _ = false

-- `activeUpgrade`
unfoldable pub active_upgrade : Option NodeUpgradeTask → Bool
active_upgrade none = false
active_upgrade (some task) = is_upgrading task.status

-- The poll interval in milliseconds.
unfoldable pub nodes_interval : Option (List Node) → ℕ
unfolding active_upgrade
nodes_interval none = 20000
nodes_interval (some nodes) =
    if any (λ (node : Node). active_upgrade node.upgrade_task) nodes then 5000 else 20000

unfoldable pub upgradeable : Option (List Node) → ℕ
upgradeable none = 0
upgradeable (some nodes) = length (filter (λ (node : Node). node.can_upgrade) nodes)

-- What the column about the upgrade shows: the task that runs, or a label.
pub data UpgradeCell : Type 0 where
  running : UpgradeStatus → UpgradeCell
  latest possible : UpgradeCell
  blocked : Text → UpgradeCell

abbrev idle_cell : Node → UpgradeCell
idle_cell node =
    if node.upgrade_up_to_date
    then UpgradeCell.latest
    else if node.can_upgrade
    then UpgradeCell.possible
    else UpgradeCell.blocked ((node.upgrade_blocker or []) or_text codes "不可升级")

abbrev cell_for : Node → Option NodeUpgradeTask → UpgradeCell
cell_for node none = idle_cell node
cell_for node (some task) =
    if is_upgrading task.status then UpgradeCell.running task.status else idle_cell node

unfoldable pub upgrade_cell : Node → UpgradeCell
upgrade_cell node = cell_for node node.upgrade_task

-- The buttons that change a node's status, by the status they ask for.
unfoldable pub offered_status : NodeStatus → NodeStatus → Bool
offered_status NodeStatus.active NodeStatus.draining = true
offered_status NodeStatus.draining NodeStatus.active = true
offered_status NodeStatus.pending NodeStatus.revoked = true
offered_status NodeStatus.active NodeStatus.revoked = true
offered_status NodeStatus.draining NodeStatus.revoked = true
offered_status NodeStatus.revoked NodeStatus.active = true
offered_status _ _ = false
