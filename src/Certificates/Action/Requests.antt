-- ===== src/Certificates/Action/Requests.antt =====
-- Which requests the certificate buttons send
-- (frontend/src/features/certificates/certificates-page.tsx).
use cdn_platform.Prelude.{
  ◌<◌, ◌≡◌, refl, inl, inr, Bool, true, false, not, ◌||◌, Option, none, some, Text, codes, ◌++◌,
  All, Bool-cases, arith, if◌then◌else◌, ===-self,
}
use cdn_platform.Types.Task.{CertificateSiteStatus}
use cdn_platform.Site.Task.{active_task}
use cdn_platform.Uri.{encode_uri_component}
use cdn_platform.Uri.Segment.{IsSegment, encode_uri_component-IsSegment}
use cdn_platform.Certificates.Action.{
  ActionState, action_path, action_disabled, is_pending, path_of, press, sent,
}

-- What a sent request says of the site that was pressed, and of the state after it.
pub record IsRequest (s : ActionState) (site : CertificateSiteStatus) (path : Text) : Type 0 where
  pub needed : site.needs_certificate ≡ true
  pub settled : active_task site.task ≡ false
  pub kept : site.deleting ≡ false
  pub first : is_pending s.pending site.site_id ≡ false
  pub marked : action_disabled (press s site).0 site ≡ true
  pub segment : Text
  pub encoded : encode_uri_component site.site_id ≡ some segment
  pub single : IsSegment segment
  pub shape : path ≡ (
      if site.certificate_present
      then codes "/api/certificates/" ++ (segment ++ codes "/renew")
      else codes "/api/sites/" ++ (segment ++ codes "/certificate"))

path_shape :
    (present : Bool) (encoded : Option Text) (path : Text)
    → path_of present encoded ≡ some path
    → (segment : Text) × (encoded ≡ some segment)
      × (path ≡ (
          if present
          then codes "/api/certificates/" ++ (segment ++ codes "/renew")
          else codes "/api/sites/" ++ (segment ++ codes "/certificate")))
path_shape present none path e = cc
path_shape present (some segment) path e = (segment, refl, cc)

sent_path :
    (s : ActionState) (id : Text) (o : Option Text) (path : Text)
    → (sent s id o).1 ≡ some path
    → (o ≡ some path) × ((sent s id o).0.pending ≡ some id)
sent_path s id none path e = cc
sent_path s id (some p) path e = (e, refl)

-- What a press sends, when it sends something.
pressed :
    (s : ActionState) (site : CertificateSiteStatus) (path : Text)
    → (press s site).1 ≡ some path
    → (site.needs_certificate ≡ true)
      × (action_disabled s site ≡ false)
      × (action_path site ≡ some path)
      × ((press s site).0.pending ≡ some site.site_id)
unfolding press
pressed s site path e = elim (Bool-cases (not site.needs_certificate || action_disabled s site)) [
  | inl shut ↦ absurd (cc (rw (press, shut) at e))
  | inr free ↦
      let (found, marked) =
        sent_path s site.site_id (action_path site) path (rw (press, free) at e) in
      (ground arith, ground arith, found, rw free marked)
]

-- A press sends a request only for a site that needs a certificate, has no active task, is not being
-- deleted and is not the site of the last request still open; the button is then disabled, and the
-- path is that of the renewal for a certificate that is there and that of the issue otherwise, with
-- the site's own id, which is of code units, encoded as one segment.
pub press-IsRequest :
    (s : ActionState) (site : CertificateSiteStatus) (path : Text)
    → All (λ c. c < 65536) site.site_id
    → (press s site).1 ≡ some path
    → IsRequest s site path
unfolding action_disabled action_path is_pending
press-IsRequest s site path units e =
    let (needed, free, found, marked) = pressed s site path e in
    let (segment, encoded, shape) =
      path_shape site.certificate_present (encode_uri_component site.site_id) path found in
    record {
      needed = needed;
      settled = ground arith;
      kept = ground arith;
      first = ground arith;
      marked = rw marked (rw (===-self site.site_id) refl);
      segment = segment;
      encoded = encoded;
      single = encode_uri_component-IsSegment site.site_id segment units encoded;
      shape = shape;
    }
