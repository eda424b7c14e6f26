-- ===== src/Badges/Labels.antt =====
-- The statuses that the console hands to a badge without a label of its own
-- (frontend/src/components/status-badge.tsx).
use cdn_platform.Prelude.{◌≡◌, refl, Bool, true, false, none, Text, codes, ◌===◌}
use cdn_platform.Types.Node.{NodeStatus}
use cdn_platform.Types.Task.{TaskStatus, PublishNodeStatus}
use cdn_platform.Badges.{badge_label, lookup}

-- A status of a node, of a task, or of a publication on one node.
pub data ConsoleStatus : Type 0 where
  of_node : NodeStatus → ConsoleStatus
  of_task : TaskStatus → ConsoleStatus
  of_publication : PublishNodeStatus → ConsoleStatus

abbrev node_text : NodeStatus → Text
node_text NodeStatus.pending = codes "pending"
node_text NodeStatus.active = codes "active"
node_text NodeStatus.draining = codes "draining"
node_text NodeStatus.revoked = codes "revoked"
node_text NodeStatus.uninstalling = codes "uninstalling"
node_text NodeStatus.uninstalled = codes "uninstalled"

abbrev task_text : TaskStatus → Text
task_text TaskStatus.queued = codes "queued"
task_text TaskStatus.dispatching = codes "dispatching"
task_text TaskStatus.applying = codes "applying"
task_text TaskStatus.succeeded = codes "succeeded"
task_text TaskStatus.partial = codes "partial"
task_text TaskStatus.failed = codes "failed"
task_text TaskStatus.rolled_back = codes "rolled_back"

abbrev publication_text : PublishNodeStatus → Text
publication_text PublishNodeStatus.pending = codes "pending"
publication_text PublishNodeStatus.succeeded = codes "succeeded"
publication_text PublishNodeStatus.failed = codes "failed"
publication_text PublishNodeStatus.timed_out = codes "timed_out"

abbrev pub status_text : ConsoleStatus → Text
status_text (of_node s) = node_text s
status_text (of_task s) = task_text s
status_text (of_publication s) = publication_text s

abbrev pub times_out : ConsoleStatus → Bool
times_out (of_publication PublishNodeStatus.timed_out) = true
times_out _ = false

of_node_lem : (s : NodeStatus) → (badge_label (node_text s) none === node_text s) ≡ false
unfolding badge_label lookup ◌===◌
of_node_lem NodeStatus.pending = refl
of_node_lem NodeStatus.active = refl
of_node_lem NodeStatus.draining = refl
of_node_lem NodeStatus.revoked = refl
of_node_lem NodeStatus.uninstalling = refl
of_node_lem NodeStatus.uninstalled = refl

of_task_lem : (s : TaskStatus) → (badge_label (task_text s) none === task_text s) ≡ false
unfolding badge_label lookup ◌===◌
of_task_lem TaskStatus.queued = refl
of_task_lem TaskStatus.dispatching = refl
of_task_lem TaskStatus.applying = refl
of_task_lem TaskStatus.succeeded = refl
of_task_lem TaskStatus.partial = refl
of_task_lem TaskStatus.failed = refl
of_task_lem TaskStatus.rolled_back = refl

-- A badge without a label of its own shows the bare identifier of a status exactly for a publication
-- that has timed out; every other status of a node, a task or a publication has a label.
pub badge_label-status_text :
    (s : ConsoleStatus) → (badge_label (status_text s) none === status_text s) ≡ times_out s
unfolding badge_label lookup ◌===◌
badge_label-status_text (of_node s) = of_node_lem s
badge_label-status_text (of_task s) = of_task_lem s
badge_label-status_text (of_publication PublishNodeStatus.pending) = refl
badge_label-status_text (of_publication PublishNodeStatus.succeeded) = refl
badge_label-status_text (of_publication PublishNodeStatus.failed) = refl
badge_label-status_text (of_publication PublishNodeStatus.timed_out) = refl
