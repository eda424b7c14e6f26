-- ===== src/Site/Operations.antt =====
-- The operations panel of a site, frontend/src/features/sites/site-detail-page.tsx
-- (`SiteOperations`): what it shows and which of its buttons can be pressed.
pub mod Buttons
pub mod Assigned
mod Tests
use cdn_platform.Prelude.{
  ℕ, Bool, true, false, not, ◌&&◌, ◌||◌, List, [], ◌∷◌, map, any, length, Option, none, some, ◌or◌,
  is_some, Text, codes, ◌===◌, is_truthy, ◌or_text◌, starts_with_ignoring_case, if◌then◌else◌, ltb,
}
use cdn_platform.Types.Node.{Node, NodeStatus}
use cdn_platform.Types.Site.{Site, TcpForward}
use cdn_platform.Types.Task.{DeploymentTask, TaskStatus, PublishNode, PublishStatus}
use cdn_platform.Site.Task.{active_task, task_matches_current_site}

pub record TlsStatus : Type 0 where
  pub certificate_task : Option DeploymentTask
  pub published_after_certificate : Bool

-- `status?.task`, `status?.nodes` and `tls?.certificate_task`
abbrev pub task_of : Option PublishStatus → Option DeploymentTask
task_of none = none
task_of (some status) = status.task

abbrev pub nodes_of : Option PublishStatus → List PublishNode
nodes_of none = []
nodes_of (some status) = status.nodes

abbrev pub certificate_of : Option TlsStatus → Option DeploymentTask
certificate_of none = none
certificate_of (some tls) = tls.certificate_task

-- `["partial", "failed"].includes(task?.status ?? "")`
abbrev pub has_failed : Option DeploymentTask → Bool
has_failed none = false
has_failed (some task) = elim task.status [
  | TaskStatus.partial ↦ true
  | TaskStatus.failed ↦ true
  | _ ↦ false
]

abbrev is_nonempty {ℓ} : {A : Type ℓ} → List A → Bool
is_nonempty [] = false
is_nonempty (x ∷ xs) = true

pub record AssignedNode : Type 0 where
  pub id : Text
  pub name : Text
  pub public_ipv4 : Option Text
  pub status : Option NodeStatus

-- `new Map(nodes.map((node) => [node.id, node])).get(id)`: of two nodes with one id, the later.
unfoldable pub node_by_id : List Node → Text → Option Node
unfolding ◌===◌
node_by_id [] id = none
node_by_id (n ∷ ns) id = elim (node_by_id ns id) [
  | some later ↦ some later
  | none ↦ if n.id === id then some n else none
]

abbrev assigned_from : Text → Option Node → AssignedNode
assigned_from id none = record { id = id; name = id; public_ipv4 = none; status = none }
assigned_from id (some node) = record {
  id = id;
  name = node.name or_text id;
  public_ipv4 = some node.public_ipv4;
  status = some node.status;
}

unfoldable pub assigned_nodes : List Node → Site → List AssignedNode
unfolding node_by_id
assigned_nodes nodes site = map (λ id. assigned_from id (node_by_id nodes id)) site.node_ids

-- What the panel is given, and what it shows.
pub record Inputs : Type 0 where
  pub site : Site
  pub nodes : List Node
  pub tls : Option TlsStatus
  pub publish : Option PublishStatus
  pub deletion : Option PublishStatus
  pub pending : Bool

abbrev pub publish_task : Inputs → Option DeploymentTask
publish_task p = if p.site.deleting then task_of p.deletion else task_of p.publish

abbrev pub operation_nodes : Inputs → List PublishNode
operation_nodes p = if p.site.deleting then nodes_of p.deletion else nodes_of p.publish

pub record Panel : Type 0 where
  pub visible_publish_task : Option DeploymentTask
  pub show_publish_targets : Bool
  pub cacheable : Bool
  pub needs_tls : Bool
  pub publish_disabled : Bool
  pub certificate_disabled : Bool
  pub invalidate_disabled : Bool
  pub allowlist_disabled : Bool
  pub delete_disabled : Bool

-- `/^https?:/i`
abbrev pub is_http_url : Text → Bool
is_http_url url =
    starts_with_ignoring_case (codes "http:") url || starts_with_ignoring_case (codes "https:") url

module _ (parse_date : Text → Option ℕ) where
  unfoldable pub site_operations : Inputs → Panel
  unfolding task_matches_current_site
  site_operations p =
      let publish_active = active_task (publish_task p) in
      let cert_active = active_task (certificate_of p.tls) in
      let current = task_matches_current_site parse_date (publish_task p) p.site in
      record {
        visible_publish_task = if current then publish_task p else none;
        show_publish_targets =
            current
            && (is_nonempty (operation_nodes p) && (publish_active || has_failed (publish_task p)));
        cacheable =
            not p.site.tcp_only
            && (not p.site.passthrough && is_http_url p.site.primary_origin.url);
        needs_tls =
            ltb 0 (length p.site.domains)
            || any (λ (f : TcpForward). f.listen_tls) p.site.tcp_forwards;
        publish_disabled = p.site.deleting || (p.pending || publish_active);
        certificate_disabled = p.site.deleting || (p.pending || cert_active);
        invalidate_disabled = p.site.deleting || p.pending;
        allowlist_disabled = p.site.deleting;
        delete_disabled = p.pending || (publish_active || cert_active);
      }
