-- ===== src/Site/Nodes/Tests.antt =====
-- A test of the selection.
use cdn_platform.Prelude.{◌≡◌, refl, false, [], ◌∷◌, codes}
use cdn_platform.Site.Nodes.{toggle_node}

toggles : toggle_node (codes "a") false (codes "a" ∷ codes "b" ∷ []) ≡ codes "b" ∷ []
unfolding toggle_node
toggles = refl
