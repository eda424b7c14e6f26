-- ===== src/Security/Coverage/Tests.antt =====
-- Tests of the numbers at the top of the security page.
use cdn_platform.Prelude.{ℕ, ◌≡◌, refl, true, [], ◌∷◌, length, Option, none, some, Text, codes}
use cdn_platform.Types.Node.{NodeStatus}
use cdn_platform.Types.Security.{SecurityNode, SecurityOverview}
use cdn_platform.Security.Coverage.{eligible_nodes, applied_nodes, enabled_count}

abbrev edge : Text → NodeStatus → ℕ → SecurityNode
edge id status version = record {
  id = id;
  name = [];
  status = status;
  capable = true;
  configured = true;
  rate_limit_capable = true;
  rate_limit_configured = true;
  desired_version = 4;
  applied_version = version;
  last_error = none;
}

abbrev fleet : Option SecurityOverview
fleet = some (record {
  policies = [];
  rate_limit_policies = [];
  bans = [];
  active_ban_count = 0;
  events = [];
  nodes =
      edge (codes "a") NodeStatus.active 4
      ∷ edge (codes "b") NodeStatus.draining 3
      ∷ edge (codes "c") NodeStatus.revoked 4
      ∷ [];
  deployment_error = none;
})

counts :
    (length (eligible_nodes fleet) ≡ 2)
    × (length (applied_nodes fleet) ≡ 1)
    × (enabled_count fleet ≡ 0)
unfolding eligible_nodes applied_nodes enabled_count
counts = (refl, refl, refl)
