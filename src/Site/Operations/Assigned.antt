-- ===== src/Site/Operations/Assigned.antt =====
-- The list of assigned nodes (frontend/src/features/sites/site-detail-page.tsx).
use cdn_platform.Prelude.{
  ◌≡◌, ◌≢◌, refl, ap, ◌∙◌, List, [], ◌∷◌, map, Option, none, some, Option-cases, Bool-cases, Text,
  ◌===◌, ===_iff, All, Member, arith, inl, inr, ◌⊎◌,
}
use mathlib.Core.Path.{ap₂}
use cdn_platform.Types.Node.{Node}
use cdn_platform.Types.Site.{Site}
use cdn_platform.Site.Operations.{AssignedNode, assigned_from, assigned_nodes, node_by_id}

-- A node that is found is one of the nodes, and has the id.
node_by_id_sound :
    (nodes : List Node) (id : Text) (n : Node)
    → node_by_id nodes id ≡ some n
    → Member n nodes × (n.id ≡ id)
unfolding node_by_id
node_by_id_sound [] id n h = cc
node_by_id_sound (m ∷ nodes) id n h = elim (Option-cases (node_by_id nodes id)) [
  | inr (later, e) ↦
      let found = node_by_id_sound nodes id n (e ∙ ground arith) in (inr found.0, found.1)
  | inl e ↦ elim (Bool-cases (m.id === id)) [
    | inl same ↦
        let here : n ≡ m = ground arith in
        (inl here, ap (λ x. x.id) here ∙ (===_iff m.id id).0 same)
    | inr other ↦ absurd (ground arith)
  ]
]

node_by_id_complete :
    (nodes : List Node) (id : Text) → node_by_id nodes id ≡ none → All (λ n. n.id ≢ id) nodes
unfolding node_by_id
node_by_id_complete [] id h = tt
node_by_id_complete (m ∷ nodes) id h = elim (Option-cases (node_by_id nodes id)) [
  | inr (later, e) ↦ absurd (ground arith)
  | inl e ↦ (λ same. ground (arith, (===_iff m.id id).1 same), node_by_id_complete nodes id e)
]

-- A row stands for a node of the fleet with the row's id, whose address and status it shows, or the
-- fleet has no node with that id, and the row shows the id alone.
abbrev pub Describes : List Node → AssignedNode → Type 0
Describes nodes row =
    ((n : Node) × Member n nodes
      × (n.id ≡ row.id)
      × (row.status ≡ some n.status)
      × (row.public_ipv4 ≡ some n.public_ipv4))
    ⊎ (All (λ n. n.id ≢ row.id) nodes
        × (row.status ≡ none)
        × (row.public_ipv4 ≡ none)
        × (row.name ≡ row.id))

assigned_from-Describes :
    (nodes : List Node) (id : Text) (o : Option Node)
    → node_by_id nodes id ≡ o
    → ((assigned_from id o).id ≡ id) × Describes nodes (assigned_from id o)
assigned_from-Describes nodes id none e =
    (refl, inr (node_by_id_complete nodes id e, refl, refl, refl))
assigned_from-Describes nodes id (some n) e =
    let found = node_by_id_sound nodes id n e in (refl, inl (n, found.0, found.1, refl, refl))

-- The panel has one row for each node id of the site, in that order, and each row describes the
-- fleet as it is.
pub assigned_nodes_lem :
    (nodes : List Node) (site : Site)
    → (map (λ row. row.id) (assigned_nodes nodes site) ≡ site.node_ids)
      × All (Describes nodes) (assigned_nodes nodes site)
unfolding assigned_nodes
assigned_nodes_lem nodes site = go site.node_ids
  where
    go :
        (ids : List Text)
        → (map (λ row. row.id) (map (λ id. assigned_from id (node_by_id nodes id)) ids) ≡ ids)
          × All (Describes nodes) (map (λ id. assigned_from id (node_by_id nodes id)) ids)
    go [] = (refl, tt)
    go (id ∷ ids) =
        let row = assigned_from-Describes nodes id (node_by_id nodes id) refl in
        let rest = go ids in (ap₂ ◌∷◌ row.0 rest.0, (row.1, rest.1))
