-- ===== src/Shell/Tests.antt =====
-- Addresses of the console, and the theorem about them.
use cdn_platform.Prelude.{
  ℕ, ◌+◌, ◌-◌, ◌*◌, leb, ◌==◌, Text, [], ◌∷◌, if◌then◌else◌, ◌≡◌, refl, none, some, codes, ◌===◌,
  split_on, starts_with,
}
use cdn_platform.Badges.{lookup}
use cdn_platform.Shell.{
  Page, route_of, section, section_name, segments, version_label, theme_mode, set_theme, trim_parts,
  is_part, route,
}

-- A decoder of percent signs for ASCII.
abbrev digit : ℕ → ℕ
digit c = if leb c 57 then c - 48 else c - 55

abbrev decode : Text → Text
decode [] = []
decode (c ∷ []) = c ∷ []
decode (c ∷ a ∷ []) = c ∷ a ∷ []
decode (c ∷ a ∷ b ∷ s) =
    let rest = decode s in
    let next = decode (a ∷ b ∷ s) in if c == 37 then (digit a * 16 + digit b) ∷ rest else c ∷ next

routes :
    (route_of decode (codes "/sites/new") ≡ Page.new_site)
    × (route_of decode (codes "/Nodes/a%2Fb/") ≡ Page.node (codes "a/b"))
    × (route_of decode (codes "/a/b") ≡ Page.overview)
unfolding route_of route is_part split_on trim_parts ◌===◌
routes = (refl, refl, refl)

-- The header calls the page of the certificates the overview.
certificates : section_name (codes "/certificates") ≡ codes "概览"
unfolding section_name section segments split_on lookup ◌===◌
certificates = refl

texts :
    (version_label (codes "1.2") ≡ codes "v1.2")
    × (theme_mode (some (codes "blue")) ≡ codes "system")
    × (set_theme none (codes "dark") ≡ some (codes "dark"))
unfolding version_label theme_mode set_theme starts_with ◌===◌
texts = (refl, refl, refl)
