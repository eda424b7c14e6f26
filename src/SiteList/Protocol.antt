-- ===== src/SiteList/Protocol.antt =====
-- The protocol in the list and the panel of the site's page
-- (frontend/src/features/sites/sites-page.tsx, site-detail-page.tsx).
use cdn_platform.Prelude.{
  ℕ, ◌≡◌, ap, and_parts, not, ◌⊎◌, inl, inr, refl, true, false, List, [], ◌∷◌, Option, Text, codes,
  ◌===◌, ◌==◌, fold_case, starts_with, starts_with_ignoring_case, arith, Bool-cases, All, ◌++◌,
}
use cdn_platform.Types.Site.{TcpForward}
use cdn_platform.Site.Operations.{Inputs, site_operations, is_http_url}
use cdn_platform.SiteList.{forwards_protocol, SiteProtocol, site_protocol, scheme, before_colon}

folds_to_colon : (c : ℕ) → (58 == fold_case c) ≡ true → (c == 58) ≡ true
folds_to_colon c h = ground arith

keeps_colon : (c d : ℕ) → (d == fold_case c) ≡ true → (d == 58) ≡ false → (c == 58) ≡ false
keeps_colon c d h hd = ground arith

-- A URL that starts with a scheme and a colon has that scheme.
scheme_of_prefix :
    (p url : Text)
    → All (λ c. (c == 58) ≡ false) p
    → starts_with_ignoring_case (p ++ 58 ∷ []) url ≡ true
    → scheme url ≡ p
unfolding starts_with_ignoring_case starts_with scheme before_colon
scheme_of_prefix [] [] hp h = cc
scheme_of_prefix [] (c ∷ url) hp h = rw (folds_to_colon c (and_parts _ _ h).0) refl
scheme_of_prefix (d ∷ p) [] (hd, hp) h = cc
scheme_of_prefix (d ∷ p) (c ∷ url) (hd, hp) h =
    let (here, rest) = and_parts (d == fold_case c) _ h in
    let inside : (c == 58) ≡ false = keeps_colon c d here hd in
    let first : fold_case c ≡ d = ground arith in
    rw (inside, first) (ap (d ∷◌) (scheme_of_prefix p url hp rest))

http_scheme :
    (url : Text)
    → is_http_url url ≡ true
    → (scheme url ≡ codes "http") ⊎ (scheme url ≡ codes "https")
http_scheme url h = elim (Bool-cases (starts_with_ignoring_case (codes "http:") url)) [
  | inl e ↦ inl (scheme_of_prefix (codes "http") url (refl, (refl, (refl, (refl, tt)))) e)
  | inr e ↦ inr (
      scheme_of_prefix (codes "https") url (refl, (refl, (refl, (refl, (refl, tt)))))
        (ground arith))
]

web_protocol :
    (fs : List TcpForward) (s : Text)
    → (s ≡ codes "http") ⊎ (s ≡ codes "https")
    → (forwards_protocol fs s ≡ SiteProtocol.http_ws_sse)
      ⊎ (forwards_protocol fs s ≡ SiteProtocol.http_tcp)
unfolding ◌===◌
web_protocol (f ∷ fs) s h = inr refl
web_protocol [] s (inl e) = inl (rw e refl)
web_protocol [] s (inr e) = inl (rw e refl)

-- A site whose page offers to invalidate its cache is listed as a web site, with or without further
-- ports, and never as gRPC or WebSocket.
pub cacheable-site_protocol :
    (parse_date : Text → Option ℕ) (p : Inputs)
    → (site_operations parse_date p).cacheable ≡ true
    → (site_protocol p.site ≡ SiteProtocol.http_ws_sse)
      ⊎ (site_protocol p.site ≡ SiteProtocol.http_tcp)
unfolding site_operations site_protocol
cacheable-site_protocol parse_date p h =
    let (web, rest) = and_parts (not p.site.tcp_only) _ h in
    let (plain, http) = and_parts (not p.site.passthrough) _ rest in
    let not_tcp : p.site.tcp_only ≡ false = ground arith in
    rw not_tcp (
      web_protocol p.site.tcp_forwards (scheme p.site.primary_origin.url)
        (http_scheme p.site.primary_origin.url http))
