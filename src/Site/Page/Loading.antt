-- ===== src/Site/Page/Loading.antt =====
-- When the form is filled, and when it has changes (frontend/src/features/sites/site-detail-page.tsx).
use cdn_platform.Prelude.{
  ℕ, ◌≡◌, ◌≢◌, ◌↔◌, refl, true, false, not, ◌&&◌, Text, ◌===◌, ===_iff, ===-self, is_truthy, arith,
  [], ◌⊎◌,
}
use cdn_platform.Types.Site.{Site}
use cdn_platform.Site.Draft.{SiteDraft, draft_from_site}
use cdn_platform.Site.Page.{
  PageState, Snapshot, load_key, site_of, global_ttl, dirty, load_effect, on_saved, go_back,
  draft_for,
}

unchanged : (x : Text) → (is_truthy x && not (x === x)) ≡ false
unchanged x = ground (arith, ===-self x)

module _ (stringify : SiteDraft → Text) where
  -- Once the form is filled for a site, no refetched list, setting or renamed site overwrites it.
  pub load_effect_idle :
      (q : Snapshot) (s : PageState) → load_key q ≡ s.loaded_key → load_effect stringify q s ≡ s
  unfolding load_effect
  load_effect_idle q s h = ground (arith, ===-self s.loaded_key)

  -- A filled form has no changes, and is what the site, or an empty form, gives.
  pub load_effect_fresh :
      (q : Snapshot) (s : PageState)
      → q.settings_fetched ≡ true
      → load_key q ≢ []
      → load_key q ≢ s.loaded_key
      → ((load_effect stringify q s).draft ≡ draft_for (site_of q) (global_ttl q))
        × ((load_effect stringify q s).loaded_key ≡ load_key q)
        × (dirty stringify (load_effect stringify q s) ≡ false)
  unfolding load_effect dirty
  load_effect_fresh q s fetched present other =
      let differs : (load_key q === s.loaded_key) ≡ false =
        ground (arith, ===_iff (load_key q) s.loaded_key) in
      let key : is_truthy (load_key q) ≡ true = ground arith in
      rw (fetched, key, differs)
        (refl, refl, unchanged (stringify (draft_for (site_of q) (global_ttl q))))

  -- After a save the form holds the saved site, without changes, and filling it for that site's
  -- own page does nothing.
  pub on_saved_lem :
      (saved : Site) (ttl : ℕ) (q : Snapshot) (s : PageState)
      → load_key q ≡ saved.id
      → (dirty stringify (on_saved stringify saved ttl s) ≡ false)
        × (load_effect stringify q (on_saved stringify saved ttl s)
            ≡ on_saved stringify saved ttl s)
  unfolding on_saved dirty
  on_saved_lem saved ttl q s h = (
    unchanged (stringify (draft_from_site saved ttl)),
    load_effect_idle q (on_saved stringify saved ttl s) h,
  )

  -- The way back from a form that holds `d` after a save is open at once exactly if `d` is what was
  -- saved; otherwise the page stays, with the question whether to discard the changes.
  pub go_back_iff :
      (saved : Site) (ttl : ℕ) (s : PageState) (d : SiteDraft)
      → s.left ≡ false
      → stringify (draft_from_site saved ttl) ≢ []
      → (stringify d ≡ stringify (draft_from_site saved ttl) → d ≡ draft_from_site saved ttl)
      → (((go_back stringify (record (on_saved stringify saved ttl s) { draft = d })).left ≡ true)
          ↔ (d ≡ draft_from_site saved ttl))
        × (((go_back stringify (record (on_saved stringify saved ttl s) { draft = d })).left ≡ true)
            ⊎ ((go_back stringify
                  (record (on_saved stringify saved ttl s) { draft = d })).discard_open
                ≡ true))
  unfolding go_back on_saved dirty
  go_back_iff saved ttl s d here full same =
      ground (arith, ===_iff (stringify d) (stringify (draft_from_site saved ttl)))
