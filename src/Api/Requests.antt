-- ===== src/Api/Requests.antt =====
-- What a request carries, and what an answer does (frontend/src/lib/api.ts).
use cdn_platform.Prelude.{
  ℕ, ◌≡◌, ◌≤◌, ◌⊎◌, ◌↔◌, refl, Bool, true, false, not, ◌&&◌, [], ◌∷◌, ◌++◌, Bool-cases, inl, inr,
  Option, none, some, is_some, Text, codes, ◌===◌, ===_iff, ===-self, is_truthy, arith,
  if◌then◌else◌, decimal,
}
use cdn_platform.Api.{
  Headers, header, set_header, with_content_type, RequestInit, build_request, request_method,
  is_safe_method, csrf_header, content_type, Answer, Outcome, is_ok, error_text, returns, throws,
  api_outcome,
}

-- A header that is set is read back, and no other is touched.
pub header-set_header :
    (name other value : Text) (hs : Headers)
    → header other (set_header name value hs)
      ≡ (if name === other then some value else header other hs)
unfolding header set_header
header-set_header name other value [] = refl
header-set_header name other value ((k, v) ∷ hs) = ground (
  arith,
  header-set_header name other value hs,
  ===_iff k name,
  ===_iff k other,
  ===_iff name other,
)

names_differ : ((content_type === csrf_header) ≡ false) × ((csrf_header === content_type) ≡ false)
unfolding ◌===◌
names_differ = (refl, refl)

abbrev json : Text
json = codes "application/json"

csrf_below :
    (init : RequestInit)
    → header csrf_header (with_content_type init) ≡ header csrf_header init.headers
csrf_below init =
    ground (arith, header-set_header content_type csrf_header json init.headers, names_differ)

type_below :
    (init : RequestInit)
    → header content_type (with_content_type init) ≡ (
        if is_some init.body && not (is_some (header content_type init.headers))
        then some json
        else header content_type init.headers)
type_below init =
    ground
      (arith, header-set_header content_type content_type json init.headers, ===-self content_type)

module _ (csrf_token path : Text) (init : RequestInit) where
  -- A request that a caller gives no token of its own carries the session's token exactly if it is
  -- neither a GET nor a HEAD and there is one.
  pub build_request_csrf :
      header csrf_header init.headers ≡ none
      → header csrf_header (build_request csrf_token path init).headers ≡ (
          if not (is_safe_method (request_method init)) && is_truthy csrf_token
          then some csrf_token
          else none)
  unfolding build_request
  build_request_csrf h =
      let t = with_content_type init in
      ground (
        arith,
        header-set_header csrf_header csrf_header csrf_token t,
        ===-self csrf_header,
        csrf_below init,
      )

  -- A body without a type of its own is sent as JSON; a type that the caller gives is kept.
  pub build_request_type : header content_type (build_request csrf_token path init).headers ≡ (
      if is_some init.body && not (is_some (header content_type init.headers))
      then some (codes "application/json")
      else header content_type init.headers)
  unfolding build_request
  build_request_type =
      let t = with_content_type init in
      ground (
        arith,
        header-set_header csrf_header content_type csrf_token t,
        names_differ,
        type_below init,
      )

-- The outcome of a call, and whether it announces the end of the session.
pub record Answers {D : Type 0} (r : Answer D) (o : Outcome D × Bool) : Type 0 where
  pub success : (200 ≤ r.status) × (r.status ≤ 299) ↔ (o.0 ≡ returns r.body)
  pub failure :
      (o.0 ≡ returns r.body)
      ⊎ ((message : Text) × (o.0 ≡ throws message r.status r.body)
          × ((r.error ≡ some message)
              ⊎ (r.error ≡ none)
                × (message ≡ codes "请求失败（HTTP " ++ (decimal r.status ++ codes "）"))))
  pub expired : (r.status ≡ 401) ↔ (o.1 ≡ true)

error_text_lem :
    (e : Option Text) (status : ℕ)
    → (e ≡ some (error_text e status))
      ⊎ (e ≡ none) × (error_text e status ≡ codes "请求失败（HTTP " ++ (decimal status ++ codes "）"))
error_text_lem (some e) status = inl refl
error_text_lem none status = inr (refl, refl)

-- A call returns the body exactly for a status from 200 to 299; otherwise it throws with the
-- status and the server's own message, or a message that names the status; and it announces the
-- end of the session exactly for the status 401.
pub api_outcome-Answers : {D : Type 0} (r : Answer D) → Answers r (api_outcome r)
unfolding api_outcome
api_outcome-Answers r = record {
  success = ground arith;
  failure = elim (Bool-cases (is_ok r.status)) [
    | inl good ↦ inl (rw good)
    | inr bad ↦ inr (error_text r.error r.status, rw bad, error_text_lem r.error r.status)
  ];
  expired = ground arith;
}
