-- ===== src/Site/Allowlist.antt =====
-- The origin allowlist, frontend/src/features/sites/site-detail-page.tsx (`AllowlistDialog`).
pub mod Groups
mod Tests
use cdn_platform.Prelude.{
  ℕ, suc, Bool, true, false, not, List, [], ◌∷◌, ◌++◌, filter, Option, none, some, Text, codes,
  decimal,
}

pub data Assignment : Type 0 where
  current current_and_published published_only : Assignment

pub record AllowlistNode : Type 0 where
  pub node_id : Text
  pub node_name : Text
  pub ipv4_cidr : Text
  pub assignment : Assignment

pub record Allowlist : Type 0 where
  pub site_id : Text
  pub ipv4_cidrs : List Text
  pub nodes : Option (List AllowlistNode)
  pub note : Text

abbrev pub is_published_only : Assignment → Bool
is_published_only Assignment.published_only = true
is_published_only _ = false

-- An entry for each address of an answer without nodes; `index` is the index of the first.
unfoldable pub legacy_entries : ℕ → List Text → List AllowlistNode
unfolding decimal
legacy_entries index [] = []
legacy_entries index (cidr ∷ cidrs) =
    record {
      node_id = codes "legacy-" ++ decimal index;
      node_name = codes "边缘节点";
      ipv4_cidr = cidr;
      assignment = Assignment.current;
    }
    ∷ legacy_entries (suc index) cidrs

abbrev nodes_or_legacy : Option (List AllowlistNode) → List Text → List AllowlistNode
nodes_or_legacy none cidrs = legacy_entries 0 cidrs
nodes_or_legacy (some []) cidrs = legacy_entries 0 cidrs
nodes_or_legacy (some (n ∷ ns)) cidrs = n ∷ ns

unfoldable pub entries : Option Allowlist → List AllowlistNode
unfolding legacy_entries
entries none = []
entries (some a) = nodes_or_legacy a.nodes a.ipv4_cidrs

unfoldable pub current_nodes : Option Allowlist → List AllowlistNode
unfolding entries
current_nodes a = filter (λ n. not (is_published_only n.assignment)) (entries a)

unfoldable pub pending_removal_nodes : Option Allowlist → List AllowlistNode
unfolding entries
pending_removal_nodes a = filter (λ n. is_published_only n.assignment) (entries a)
