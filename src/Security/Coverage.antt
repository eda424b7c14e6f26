-- ===== src/Security/Coverage.antt =====
-- The numbers at the top of the security page (frontend/src/features/security/security-page.tsx).
pub mod Counts
mod Tests
use cdn_platform.Prelude.{
  ℕ, ◌+◌, Bool, true, false, ◌&&◌, List, [], filter, length, Option, none, some, Text, codes, ltb,
  leb, find?, ◌===◌, ◌or_text◌, ◌or◌,
}
use cdn_platform.Types.Node.{NodeStatus}
use cdn_platform.Types.Security.{SecurityNode, SecurityOverview, SecurityPolicy, RateLimitPolicy}

unfoldable pub enabled_count : Option SecurityOverview → ℕ
enabled_count none = 0
enabled_count (some overview) =
    length (filter (λ (p : SecurityPolicy). p.enabled) overview.policies)
    + length (filter (λ (p : RateLimitPolicy). p.enabled) overview.rate_limit_policies)

abbrev pub is_eligible : NodeStatus → Bool
is_eligible NodeStatus.active = true
is_eligible NodeStatus.draining = true
is_eligible _ = false

unfoldable pub eligible_nodes : Option SecurityOverview → List SecurityNode
eligible_nodes none = []
eligible_nodes (some overview) = filter (λ node. is_eligible node.status) overview.nodes

unfoldable pub capable_nodes : Option SecurityOverview → List SecurityNode
unfolding eligible_nodes
capable_nodes overview =
    filter (λ node. node.capable && node.rate_limit_capable) (eligible_nodes overview)

abbrev pub is_applied : SecurityNode → Bool
is_applied node =
    node.configured
    && (node.rate_limit_configured
        && (ltb 0 node.desired_version && leb node.desired_version node.applied_version))

unfoldable pub applied_nodes : Option SecurityOverview → List SecurityNode
unfolding capable_nodes
applied_nodes overview = filter is_applied (capable_nodes overview)

abbrev name_in : Option SecurityNode → Text
name_in none = []
name_in (some node) = node.name

-- `nodeName`
unfoldable pub node_name : SecurityOverview → Option Text → Text
unfolding ◌===◌
node_name overview none = codes "--"
node_name overview (some id) =
    name_in (find? (λ node. node.id === id) overview.nodes) or_text (id or_text codes "--")
