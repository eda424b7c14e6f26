-- ===== src/Nodes/Tests.antt =====
-- A paused node that is being removed, and the theorems about it.
use cdn_platform.Prelude.{◌≡◌, ◌≢◌, ◌↔◌, refl, true, false, List, [], ◌∷◌, none, some, codes}
use cdn_platform.Types.Node.{Node, NodeStatus, NodeUninstallStatus, NodeCacheSettings}
use cdn_platform.Nodes.{upgrade_cell, UpgradeCell, nodes_interval}
use cdn_platform.Nodes.Uninstall.{
  Action, is_offered, is_shown, is_enabled, can_generate_command, current_job, deletable,
}
use cdn_platform.Nodes.Uninstall.Agreement.{IsReady, is_offered-check}
use cdn_platform.Nodes.Uninstall.Control.{
  ControlState, check, check_prepare, check_upgrade, check_force, upgrade_unfinished,
}
use cdn_platform.Badges.{lookup}
use cdn_platform.Nodes.Forms.{bulk_state_label, bulk_state_status, usage}
use cdn_platform.Nodes.Quota.{QuotaControl}

abbrev pub paused : Node
paused = record {
  id = codes "n1";
  name = codes "edge";
  public_ipv4 = [];
  cache_max_size_gb = none;
  nginx_capacity = record {
    worker_processes = 0;
    worker_connections = 4096;
    worker_rlimit_nofile = 65536;
  };
  status = NodeStatus.draining;
  monitor_auto_paused = false;
  capabilities = [];
  agent_version = none;
  agent_sha256 = none;
  active_upgrade_task_id = none;
  last_heartbeat_at = none;
  applied_version = 3;
  last_error = none;
  created_at = [];
  updated_at = [];
  target_agent_sha256 = none;
  target_agent_version = none;
  upgrade_capable = true;
  upgrade_up_to_date = false;
  can_upgrade = false;
  upgrade_blocker = none;
  upgrade_task = none;
}

abbrev pub removal : NodeUninstallStatus
removal = record {
  node = paused;
  job = some (record {
    node_id = codes "n1";
    status = codes "running";
    previous_status = NodeStatus.draining;
    token_expires_at = none;
    ready_at = [];
    affected_site_ids = [];
    detail = none;
    forced = false;
    created_at = [];
    updated_at = [];
  });
  blockers = [];
  can_generate_command = false;
  ready_in_seconds = 0;
  uninstall_command = none;
}

all_of_it : Unit {0}
unfolding is_offered is_shown is_enabled can_generate_command check check_prepare check_upgrade
    check_force current_job deletable upgrade_cell nodes_interval
all_of_it = tt

offers :
    (is_offered paused (some removal) false Action.force ≡ true)
    × (is_offered paused (some removal) false Action.cancel ≡ false)
    × (is_offered paused none false Action.prepare ≡ true)
    × (upgrade_cell paused ≡ UpgradeCell.blocked (codes "不可升级"))
unfolding all_of_it
offers = (refl, refl, refl, refl)

never_seen : paused.last_heartbeat_at ≢ some []
never_seen = λ e. cc

abbrev pub control : ControlState
control = record {
  has_provider = true;
  removes_dns = true;
  upgrades = false;
  has_url = true;
  is_assigned = false;
  never_enrolled = false;
}

-- The preparation is offered while an upgrade is unfinished, and refused.
abbrev upgraded : NodeUninstallStatus
upgraded = record removal {
  node = record paused { active_upgrade_task_id = some (codes "u") };
  job = none;
}

refused :
    (is_offered upgraded.node (some upgraded) false Action.prepare ≡ true)
    × (check control [] upgraded Action.prepare ≡ some upgrade_unfinished)
unfolding all_of_it
refused = (refl, refl)

abbrev quota : NodeCacheSettings
quota = record { default_size_gb = 10; override_size_gb = some 20; effective_size_gb = 20 }

abbrev controls : List QuotaControl
controls = QuotaControl.enter 30 ∷ QuotaControl.toggle false ∷ QuotaControl.enter 40 ∷ []

forms :
    (bulk_state_label (codes "blocked") ≡ codes "受阻")
    × (bulk_state_status (codes "created") ≡ codes "queued")
    × (usage 9 4 ≡ (400, 4))
unfolding bulk_state_label bulk_state_status lookup usage
forms = (refl, refl, refl)

is_offered-check_example :
    (check control (codes "edge") removal Action.force ≡ none)
    ↔ IsReady control (codes "edge") removal Action.force
unfolding all_of_it
is_offered-check_example =
    is_offered-check control removal (codes "edge") false Action.force never_seen refl refl
