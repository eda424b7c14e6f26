-- ===== src/Badges/Tests.antt =====
-- Badges of concrete statuses.
use cdn_platform.Prelude.{◌≡◌, refl, none, some, codes}
use cdn_platform.Badges.{badge_label, badge_tone, http_tone, lookup, amber, red}

badges :
    (badge_label (codes "queued") none ≡ codes "排队中")
    × (badge_tone (codes "queued") ≡ some amber)
    × (http_tone 503 ≡ some red)
unfolding badge_label badge_tone http_tone lookup
badges = (refl, refl, refl)
