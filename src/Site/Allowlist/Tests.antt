-- ===== src/Site/Allowlist/Tests.antt =====
-- Tests of the allowlist dialog.
use cdn_platform.Prelude.{◌≡◌, refl, [], ◌∷◌, map, none, some, codes}
use cdn_platform.Site.Allowlist.{Allowlist, entries}

abbrev old_answer : Allowlist
old_answer = record {
  site_id = codes "s1";
  ipv4_cidrs = codes "192.0.2.1/32" ∷ [];
  nodes = none;
  note = [];
}

legacy_id : map (λ n. n.node_id) (entries (some old_answer)) ≡ codes "legacy-0" ∷ []
unfolding entries
legacy_id = refl
