-- ===== src/Site/Page.antt =====
-- The state of the site page, frontend/src/features/sites/site-detail-page.tsx
-- (`SiteDetailPage`): the draft, what it is compared with, and the cached list of sites.
pub mod Loading
pub mod Cache
mod Tests
use cdn_platform.Prelude.{
  ℕ, Bool, true, false, not, ◌&&◌, ◌||◌, List, [], ◌∷◌, ◌++◌, map, any, find?, Option, none, some,
  ◌or◌, Text, codes, ◌===◌, is_truthy, if◌then◌else◌,
}
use cdn_platform.Types.Site.{Site}
use cdn_platform.Site.Draft.{SiteDraft, empty_draft, draft_from_site}

-- `left` says that the page has navigated back to the list.
pub record PageState : Type 0 where
  pub draft : SiteDraft
  pub baseline : Text
  pub loaded_key : Text
  pub discard_open : Bool
  pub left : Bool

-- What a rendering of the page reads from the route and from the queries.
pub record Snapshot : Type 0 where
  pub site_id : Option Text
  pub sites : Option (List Site)
  pub settings_fetched : Bool
  pub default_ttl_seconds : Option ℕ

abbrev pub is_new : Snapshot → Bool
is_new q = elim q.site_id [ none ↦ true | some id ↦ not (is_truthy id) ]

abbrev find_site : Option Text → Option (List Site) → Option Site
find_site (some id) (some sites) = find? (λ s. s.id === id) sites
find_site _ _ = none

unfoldable pub site_of : Snapshot → Option Site
unfolding ◌===◌
site_of q = find_site q.site_id q.sites

abbrev pub global_ttl : Snapshot → ℕ
global_ttl q = q.default_ttl_seconds or 60

-- `isNew ? "new" : site?.id`
abbrev site_key : Option Site → Text
site_key none = []
site_key (some s) = s.id

unfoldable pub load_key : Snapshot → Text
unfolding site_of
load_key q = if is_new q then codes "new" else site_key (site_of q)

unfoldable pub initial_page : PageState
unfolding empty_draft
initial_page = record {
  draft = empty_draft 60;
  baseline = [];
  loaded_key = [];
  discard_open = false;
  left = false;
}

abbrev draft_for : Option Site → ℕ → SiteDraft
draft_for none ttl = empty_draft ttl
draft_for (some s) ttl = draft_from_site s ttl

-- `JSON.stringify` on drafts is a parameter.
module _ (stringify : SiteDraft → Text) where
  unfoldable pub dirty : PageState → Bool
  unfolding ◌===◌
  dirty s = is_truthy s.baseline && not (stringify s.draft === s.baseline)

  abbrev accept : SiteDraft → Text → PageState → PageState
  accept next key s = record s { draft = next; baseline = stringify next; loaded_key = key }

  -- The effect that fills the form. An absent key is the empty text.
  unfoldable pub load_effect : Snapshot → PageState → PageState
  unfolding load_key ◌===◌
  load_effect q s =
      if not q.settings_fetched || (not (is_truthy (load_key q)) || (load_key q === s.loaded_key))
      then s
      else accept (draft_for (site_of q) (global_ttl q)) (load_key q) s

  -- `onSuccess` of the save request.
  unfoldable pub on_saved : Site → ℕ → PageState → PageState
  on_saved saved ttl s = accept (draft_from_site saved ttl) saved.id s

  unfoldable pub go_back : PageState → PageState
  unfolding dirty
  go_back s = if dirty s then record s { discard_open = true } else record s { left = true }

-- The cached list of sites after a save; without a list there is nothing to change.
unfoldable pub upsert : Site → List Site → List Site
unfolding ◌===◌
upsert saved current =
    if any (λ item. item.id === saved.id) current
    then map (λ item. if item.id === saved.id then saved else item) current
    else current ++ saved ∷ []

unfoldable pub cache_saved : Site → Option (List Site) → Option (List Site)
unfolding upsert
cache_saved saved none = none
cache_saved saved (some current) = some (upsert saved current)
