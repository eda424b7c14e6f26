-- ===== src/Site/Samples.antt =====
-- A site, its tasks and nodes, for the tests of the site page.
use cdn_platform.Prelude.{ℕ, true, false, [], ◌∷◌, Option, none, some, Text, codes, length}
use cdn_platform.Types.Node.{Node, NodeStatus}
use cdn_platform.Types.Site.{Site}
use cdn_platform.Types.Task.{DeploymentTask, TaskStatus, PublishNodeStatus, PublishStatus}

abbrev pub sample_site : Site
sample_site = record {
  id = codes "s1";
  name = codes "Main";
  zone_id = codes "z";
  domains = codes "a.com" ∷ [];
  node_ids = codes "n1" ∷ codes "n2" ∷ [];
  primary_origin = record {
    url = codes "https://o.com";
    host_header = [];
    tls_server_name = none;
    enabled = true;
  };
  backup_origin = none;
  stream_paths = [];
  passthrough = false;
  client_max_body_size_mb = 128;
  client_keepalive_timeout_seconds = 120;
  read_write_timeout_seconds = 60;
  dns_ttl_seconds = none;
  tcp_only = false;
  tcp_forwards = [];
  cache_generation = 1;
  config_version = 2;
  published = false;
  enabled = true;
  deleting = false;
  created_at = codes "1";
  updated_at = codes "22";
}

abbrev pub sample_node : Node
sample_node = record {
  id = codes "n1";
  name = codes "edge";
  public_ipv4 = codes "192.0.2.1";
  cache_max_size_gb = none;
  nginx_capacity = record {
    worker_processes = 1;
    worker_connections = 1;
    worker_rlimit_nofile = 1;
  };
  status = NodeStatus.active;
  monitor_auto_paused = false;
  capabilities = [];
  agent_version = none;
  agent_sha256 = none;
  active_upgrade_task_id = none;
  last_heartbeat_at = none;
  applied_version = 1;
  last_error = none;
  created_at = [];
  updated_at = [];
  target_agent_sha256 = none;
  target_agent_version = none;
  upgrade_capable = true;
  upgrade_up_to_date = true;
  can_upgrade = false;
  upgrade_blocker = none;
  upgrade_task = none;
}

abbrev pub task_with : TaskStatus → Text → DeploymentTask
task_with status created = record {
  id = codes "t";
  kind = codes "publish";
  site_id = some (codes "s1");
  status = status;
  detail = none;
  deadline_at = none;
  created_at = created;
  updated_at = created;
}

abbrev pub status_with : DeploymentTask → PublishStatus
status_with task = record {
  task = some task;
  nodes =
      record {
        node_id = codes "n1";
        node_name = codes "edge";
        target_version = 2;
        status = PublishNodeStatus.pending;
        error_code = none;
        detail = none;
      }
      ∷ [];
}

-- A stand-in for `Date.parse`: the length of the text.
abbrev pub sample_date : Text → Option ℕ
sample_date [] = none
sample_date (c ∷ s) = some (length s)
