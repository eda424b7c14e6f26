-- ===== src/Site/Nodes.antt =====
-- The node selector of the form, frontend/src/features/sites/site-detail-page.tsx
-- (`NodeSelector`).
pub mod Selection
mod Tests
use cdn_platform.Prelude.{
  ℕ, Bool, true, false, not, List, [], ◌∷◌, ◌++◌, filter, Text, ◌===◌, if◌then◌else◌,
}
use cdn_platform.Types.Node.{Node, NodeStatus}

-- `["revoked", "uninstalling", "uninstalled"].includes(status)`
abbrev pub is_retired : NodeStatus → Bool
is_retired NodeStatus.revoked = true
is_retired NodeStatus.uninstalling = true
is_retired NodeStatus.uninstalled = true
is_retired _ = false

unfoldable pub available_nodes : List Node → List Node
available_nodes nodes = filter (λ n. not (is_retired n.status)) nodes

-- The new selection when the checkbox of the node `id` changes to `value`.
unfoldable pub toggle_node : Text → Bool → List Text → List Text
unfolding ◌===◌
toggle_node id value selected =
    if value then selected ++ id ∷ [] else filter (λ other. not (other === id)) selected
