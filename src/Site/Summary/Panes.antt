-- ===== src/Site/Summary/Panes.antt =====
-- Which pane of the site page is on the screen once the queries are answered
-- (frontend/src/features/sites/site-detail-page.tsx).
use cdn_platform.Prelude.{◌≡◌, ◌≢◌, true, false, not, [], none, some, Text, is_truthy}
use cdn_platform.Types.Site.{Site}
use cdn_platform.Site.Draft.{SiteDraft}
use cdn_platform.Site.Page.{PageState, Snapshot, is_new, site_of}
use cdn_platform.Site.Summary.{loading, not_found, form_shown}

module _ (stringify : SiteDraft → Text) where
  -- The page once the list of sites and the settings are there, after the effect that fills the form.
  pub record HasPane (q : Snapshot) (s after : PageState) : Type 0 where
    pub new_site : is_new q ≡ true → (form_shown false q after ≡ true) × (not_found q ≡ false)
    pub known_site :
        (site : Site)
        → is_new q ≡ false
        → site_of q ≡ some site
        → site.id ≢ []
        → (form_shown false q after ≡ true) × (not_found q ≡ false)
    pub missing :
        is_new q ≡ false
        → site_of q ≡ none
        → (form_shown false q after ≡ false)
          × (not_found q ≡ true)
          × (loading false after ≡ not (is_truthy s.loaded_key))
