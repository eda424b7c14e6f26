-- ===== src/Site/Page/Cache.antt =====
-- The cached list of sites after a save (frontend/src/features/sites/site-detail-page.tsx).
use cdn_platform.Prelude.{
  ◌≡◌, ◌⊎◌, refl, ap, true, false, ◌&&◌, List, [], ◌∷◌, ◌++◌, map, any, find?, Option, some, Text,
  ◌===◌, ===_iff, arith, Bool-cases, inl, inr, if◌then◌else◌,
}
use cdn_platform.Types.Site.{Site}
use cdn_platform.Site.Page.{upsert}

abbrev pub site_with : Text → List Site → Option Site
site_with id sites = find? (λ s. s.id === id) sites

site_with-map :
    (saved : Site) (id : Text) (sites : List Site)
    → site_with id (map (λ item. if item.id === saved.id then saved else item) sites) ≡ (
        if saved.id === id && any (λ item. item.id === saved.id) sites
        then some saved
        else site_with id sites)
site_with-map saved id [] = ground arith
site_with-map saved id (s ∷ sites) = ground (
  arith,
  site_with-map saved id sites,
  ===_iff s.id saved.id,
  ===_iff saved.id id,
  ===_iff s.id id,
)

site_with-append :
    (saved : Site) (id : Text) (sites : List Site)
    → any (λ item. item.id === saved.id) sites ≡ false
    → site_with id (sites ++ saved ∷ [])
      ≡ (if saved.id === id then some saved else site_with id sites)
site_with-append saved id [] h = refl
site_with-append saved id (s ∷ sites) h = ground (
  arith,
  site_with-append saved id sites,
  ===_iff s.id saved.id,
  ===_iff saved.id id,
  ===_iff s.id id,
)

-- After a save the list holds the saved site under its id, and every other site as before.
pub site_with-upsert :
    (saved : Site) (id : Text) (sites : List Site)
    → site_with id (upsert saved sites)
      ≡ (if saved.id === id then some saved else site_with id sites)
unfolding upsert
site_with-upsert saved id sites =
    ground (arith, site_with-map saved id sites, site_with-append saved id sites)

ids-map :
    (saved : Site) (sites : List Site)
    → map (λ s. s.id) (map (λ item. if item.id === saved.id then saved else item) sites)
      ≡ map (λ s. s.id) sites
ids-map saved [] = refl
ids-map saved (s ∷ sites) = ground (arith, ids-map saved sites, ===_iff s.id saved.id)

ids-append :
    (saved : Site) (sites : List Site)
    → map (λ s. s.id) (sites ++ saved ∷ []) ≡ map (λ s. s.id) sites ++ saved.id ∷ []
ids-append saved [] = refl
ids-append saved (s ∷ sites) = ap (s.id ∷◌) (ids-append saved sites)

-- A save keeps the order of the list, and adds the site at its end only if its id is new.
pub ids-upsert :
    (saved : Site) (sites : List Site)
    → (any (λ item. item.id === saved.id) sites ≡ true)
        × (map (λ s. s.id) (upsert saved sites) ≡ map (λ s. s.id) sites)
      ⊎ (any (λ item. item.id === saved.id) sites ≡ false)
        × (map (λ s. s.id) (upsert saved sites) ≡ map (λ s. s.id) sites ++ saved.id ∷ [])
unfolding upsert
ids-upsert saved sites = elim (Bool-cases (any (λ item. item.id === saved.id) sites)) [
  | inl e ↦ inl (e, rw e (ids-map saved sites))
  | inr e ↦ inr (e, rw e (ids-append saved sites))
]
