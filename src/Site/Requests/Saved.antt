-- ===== src/Site/Requests/Saved.antt =====
-- The page after a save (frontend/src/features/sites/site-detail-page.tsx): the form, the cached list
-- and the next request agree on the saved site.
use cdn_platform.Prelude.{
  ℕ, ◌≡◌, ◌≢◌, refl, ◌∙◌, ap, Bool, false, List, [], ◌++◌, ◌∷◌, some, Text, ===-self, codes,
}
use cdn_platform.Types.Site.{Site}
use cdn_platform.Uri.{encode_uri_component}
use cdn_platform.Site.Draft.{SiteDraft}
use cdn_platform.Site.Draft.Payload.{IsEditable, payload_of, site_payload-draft_from_site}
use cdn_platform.Site.Page.{
  Snapshot, is_new, site_of, load_key, dirty, load_effect, on_saved, cache_saved, upsert,
}
use cdn_platform.Site.Page.Loading.{on_saved_lem}
use cdn_platform.Site.Page.Cache.{site_with, site_with-upsert}
use cdn_platform.Site.Requests.{Client, Body, payload, save_call, encoded_id, save_done}

found :
    (saved : Site) (current : List Site) → site_with saved.id (upsert saved current) ≡ some saved
found saved current = rw (site_with-upsert saved saved.id current, ===-self saved.id) refl

module _ (stringify : SiteDraft → Text) where
  -- What a rendering of the saved site's page reads from a client.
  pub record IsShowing (id : Text) (c : Client) (q : Snapshot) : Type 0 where
    pub site_id : q.site_id ≡ some id
    pub sites : q.sites ≡ c.cached_sites

  pub record IsSettled (saved : Site) (encoded : Text) (q : Snapshot) (c : Client) : Type 0 where
    pub site : site_of q ≡ some saved
    pub clean : dirty stringify c.page ≡ false
    pub kept : load_effect stringify q c.page ≡ c.page
    pub again : (save_call (is_new q) encoded c.page.draft).body ≡ Body.payload (payload_of saved)
    pub replaces : (save_call (is_new q) encoded c.page.draft).method ≡ codes "PUT"
    pub own : encode_uri_component saved.id ≡ some encoded
    pub path : (save_call (is_new q) encoded c.page.draft).path ≡ codes "/api/sites/" ++ encoded

  shown_site :
      (saved : Site) (current : List Site) (q : Snapshot)
      → q.site_id ≡ some saved.id
      → q.sites ≡ some (upsert saved current)
      → site_of q ≡ some saved
  unfolding site_of
  shown_site saved current q hi hs = rw (hi, hs) (found saved current)

  known : (id : Text) (q : Snapshot) → id ≢ [] → q.site_id ≡ some id → is_new q ≡ false
  known [] q present h = absurd (present refl)
  known (x ∷ id) q present h = rw h refl

  shown_key :
      (saved : Site) (q : Snapshot)
      → is_new q ≡ false
      → site_of q ≡ some saved
      → load_key q ≡ saved.id
  unfolding load_key
  shown_key saved q hn hs = rw (hn, hs) refl

  -- After a save, a rendering of the saved site's page, with the cached list as the save leaves it,
  -- finds the saved site, shows no unsaved changes, and leaves the form as it is; saving once more
  -- sends the site's own configuration, with an absent server name of an origin as the empty one, by
  -- PUT to the path that ends in the site's encoded id. This holds for a new site and for one that was
  -- there, when the list had been loaded, and for an answer whose id is not empty, whose domains are
  -- not empty and hold no space or comma, whose origins are in use and carry no server name, or an
  -- empty one, where their address is not one of TLS, and whose backup origin has an address that is
  -- not blank.
  pub save_done-IsSettled :
      (created : Bool) (saved : Site) (ttl : ℕ) (current : List Site) (encoded : Text) (c : Client)
      (q : Snapshot)
      → saved.id ≢ []
      → IsEditable saved
      → c.cached_sites ≡ some current
      → IsShowing saved.id (save_done stringify created saved ttl c).0 q
      → encoded_id q.site_id ≡ some encoded
      → IsSettled saved encoded q (save_done stringify created saved ttl c).0
  unfolding save_done on_saved cache_saved save_call encoded_id
  save_done-IsSettled created saved ttl current encoded c q present editable hc h address =
      let listed : q.sites ≡ some (upsert saved current) = h.sites ∙ ap (cache_saved saved) hc in
      let site = shown_site saved current q h.site_id listed in
      let old = known saved.id q present h.site_id in
      let (clean, kept) = on_saved_lem stringify saved ttl q c.page (shown_key saved q old site) in
      record {
        site = site;
        clean = clean;
        kept = kept;
        again = ap payload (site_payload-draft_from_site saved ttl editable);
        replaces = rw old refl;
        own = rw h.site_id at address;
        path = rw old refl;
      }
