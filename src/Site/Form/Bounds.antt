-- ===== src/Site/Form/Bounds.antt =====
-- What the fields on the screen say of the draft (frontend/src/features/sites/site-detail-page.tsx).
use cdn_platform.Prelude.{
  ℕ, ◌≤◌, ◌≡◌, ◌≢◌, refl, Bool, true, false, not, ◌&&◌, ◌||◌, all, and_parts, List, [], ◌∷◌, length,
  none, some, Text, is_truthy, leb, arith, All, ap, Bool-cases, inl, inr, slice, min, ◌-◌, ◌*◌, ◌+◌,
  ◌<◌, suc, zero, take, if◌then◌else◌,
}
use cdn_platform.Types.Site.{TcpForward}
use cdn_platform.Pagination.{list_pagination}
use cdn_platform.Site.Draft.{SiteDraft, SitePayload, site_payload}
use cdn_platform.Site.Forwards.{forward_page}
use cdn_platform.Site.Form.{is_valid_row, is_valid_http, is_valid, submit, save_disabled}

pub record IsRow (f : TcpForward) : Type 0 where
  pub named : f.name ≢ []
  pub upstream : f.upstream_host ≢ []
  pub listens : (1 ≤ f.listen_port) × (f.listen_port ≤ 65535)
  pub sends : (1 ≤ f.upstream_port) × (f.upstream_port ≤ 65535)

full : (t : Text) → is_truthy t ≡ true → t ≢ []
full [] h = absurd (cc)
full (c ∷ t) h = λ e. cc

is_valid_row-IsRow : (f : TcpForward) → is_valid_row f ≡ true → IsRow f
unfolding is_valid_row
is_valid_row-IsRow f h = record {
  named = full f.name (ground arith);
  upstream = full f.upstream_host (ground arith);
  listens = ground arith;
  sends = ground arith;
}

rows-All : (rows : List TcpForward) → all is_valid_row rows ≡ true → All IsRow rows
rows-All [] h = tt
rows-All (f ∷ rows) h =
    let (here, later) = and_parts (is_valid_row f) (all is_valid_row rows) h in
    (is_valid_row-IsRow f here, rows-All rows later)

-- The limits of a site that serves HTTP.
pub record IsLimited (p : SitePayload) : Type 0 where
  pub address : p.primary_origin.url ≢ []
  pub body : (1 ≤ p.client_max_body_size_mb) × (p.client_max_body_size_mb ≤ 1024)
  pub keepalive :
      (15 ≤ p.client_keepalive_timeout_seconds) × (p.client_keepalive_timeout_seconds ≤ 3600)
  pub read_write : 1 ≤ p.read_write_timeout_seconds
  pub ttl : (t : ℕ) → p.dns_ttl_seconds ≡ some t → (60 ≤ t) × (t ≤ 300)

pub record IsSubmitted (requested : ℕ) (d : SiteDraft) (p : SitePayload) : Type 0 where
  pub named : p.name ≢ []
  pub limited : p.tcp_only ≡ false → IsLimited p
  pub shown : All IsRow (forward_page d requested).items
  pub rows : length p.tcp_forwards ≤ 20 → All IsRow p.tcp_forwards

sent_ttl :
    (inherit : Bool) (n t : ℕ)
    → (inherit || (leb 60 n && leb n 300)) ≡ true
    → (if inherit then none else some n) ≡ some t
    → (60 ≤ t) × (t ≤ 300)
sent_ttl true n t h e = absurd (cc)
sent_ttl false n t h e = let same : n ≡ t = cc in rw⁻¹ same (ground arith)

http-IsLimited : (d : SiteDraft) → is_valid_http d ≡ true → IsLimited (site_payload d)
unfolding is_valid_http site_payload
http-IsLimited d h = record {
  address = full d.primary_url (ground arith);
  body = ground arith;
  keepalive = ground arith;
  read_write = ground arith;
  ttl = λ t e. sent_ttl d.inherit_dns_ttl d.dns_ttl_seconds t (ground arith) e;
}

take_all : (n : ℕ) (rows : List TcpForward) → length rows ≡ n → take n rows ≡ rows
take_all zero [] h = refl
take_all zero (f ∷ rows) h = absurd (omega arith)
take_all (suc n) [] h = absurd (omega arith)
take_all (suc n) (f ∷ rows) h = ap (f ∷◌) (take_all n rows (omega arith))

page_slice : ℕ → List TcpForward → List TcpForward
page_slice page rows = slice ((page - 1) * 20) (min ((page - 1) * 20 + 20) (length rows)) rows

slice_whole :
    (from to : ℕ) (rows : List TcpForward) → from ≡ 0 → to ≡ length rows → slice from to rows ≡ rows
slice_whole from to rows hf ht = rw hf (take_all (to - 0) rows (omega arith))

one_page :
    (d : SiteDraft) (requested : ℕ)
    → 0 < requested
    → length d.tcp_forwards ≤ 20
    → (forward_page d requested).items ≡ d.tcp_forwards
unfolding forward_page list_pagination
one_page d requested pos h = slice_whole _ _ d.tcp_forwards (omega arith) (omega arith)

valid-IsSubmitted :
    (requested : ℕ) (d : SiteDraft)
    → 0 < requested
    → is_valid requested d ≡ true
    → IsSubmitted requested d (site_payload d)
unfolding is_valid site_payload
valid-IsSubmitted requested d pos h =
    let shown = rows-All (forward_page d requested).items (ground arith) in
    record {
      named = full d.name (ground arith);
      limited = λ e. http-IsLimited d (ground arith);
      shown = shown;
      rows = λ few. rw⁻¹ (one_page d requested pos few) shown;
    }

-- Whatever the page of forwards on the screen, what a press on the button sends has a name and valid
-- rows on that page, and valid rows altogether if there are at most 20 of them. For a site that serves
-- HTTP it has an address of its origin, and the limits and its own TTL lie in the ranges of the form.
pub submit-IsSubmitted :
    (pending deleting : Bool) (requested : ℕ) (d : SiteDraft) (p : SitePayload)
    → 0 < requested
    → submit pending deleting requested d ≡ some p
    → IsSubmitted requested d p
unfolding submit
submit-IsSubmitted pending deleting requested d p pos h =
    elim (Bool-cases (save_disabled pending deleting || not (is_valid requested d))) [
      | inl e ↦ absurd (cc (rw e at h))
      | inr e ↦
          let same : site_payload d ≡ p = ground arith in
          rw⁻¹ same (valid-IsSubmitted requested d pos (ground arith))
    ]
