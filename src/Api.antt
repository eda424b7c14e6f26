-- ===== src/Api.antt =====
-- The client of the control plane's API, frontend/src/lib/api.ts. `fetch` is an argument: the
-- response that it gives. A request that is not answered at all throws what `fetch` throws.
pub mod Requests
mod Tests
use cdn_platform.Prelude.{
  ℕ, ◌-◌, ◌+◌, ◌++◌, Bool, true, false, not, ◌&&◌, ◌||◌, List, [], ◌∷◌, map, Option, none, some,
  ◌or◌, is_some, Text, codes, ◌===◌, is_truthy, fold_case, leb, ◌==◌, decimal, if◌then◌else◌,
}

-- `Headers`, with its names in lower case.
abbrev pub Headers : Type 0
Headers = List (Text × Text)

unfoldable pub header : Text → Headers → Option Text
unfolding ◌===◌
header name [] = none
header name ((k, v) ∷ hs) = let rest = header name hs in if k === name then some v else rest

unfoldable pub set_header : Text → Text → Headers → Headers
unfolding ◌===◌
set_header name value [] = (name, value) ∷ []
set_header name value ((k, v) ∷ hs) =
    let rest = set_header name value hs in if k === name then (name, value) ∷ hs else (k, v) ∷ rest

pub record RequestInit : Type 0 where
  pub method : Option Text
  pub body : Option Text
  pub headers : Headers

-- What is handed to `fetch`.
pub record Request : Type 0 where
  pub path : Text
  pub method : Text
  pub body : Option Text
  pub headers : Headers
  pub credentials : Text

abbrev pub content_type : Text
content_type = codes "content-type"

abbrev pub csrf_header : Text
csrf_header = codes "x-csrf-token"

-- `toUpperCase` on the names of methods, which are ASCII.
abbrev to_upper : ℕ → ℕ
to_upper c = if leb b'a' c && leb c b'z' then c - 32 else c

unfoldable pub request_method : RequestInit → Text
request_method init = map to_upper (init.method or codes "GET")

abbrev pub is_safe_method : Text → Bool
is_safe_method m = (m === codes "GET") || (m === codes "HEAD")

abbrev with_content_type : RequestInit → Headers
with_content_type init =
    if is_some init.body && not (is_some (header content_type init.headers))
    then set_header content_type (codes "application/json") init.headers
    else init.headers

unfoldable pub build_request : Text → Text → RequestInit → Request
unfolding header set_header request_method
build_request csrf_token path init =
    let method = request_method init in
    let headers = with_content_type init in
    record {
      path = path;
      method = method;
      body = init.body;
      headers =
          if not (is_safe_method method) && is_truthy csrf_token
          then set_header csrf_header csrf_token headers
          else headers;
      credentials = codes "same-origin";
    }

-- What a body that is read as JSON gives: nothing if it is no JSON, and otherwise a value of which
-- only the field `error`, as a text, matters here.
pub record Answer (D : Type 0) : Type 0 where
  pub status : ℕ
  pub body : Option D
  pub error : Option Text

pub data Outcome (D : Type 0) : Type 0 where
  returns : Option D → Outcome D
  throws : Text → ℕ → Option D → Outcome D

-- `response.ok`
abbrev pub is_ok : ℕ → Bool
is_ok status = leb 200 status && leb status 299

abbrev pub error_text : Option Text → ℕ → Text
error_text (some e) status = e
error_text none status = codes "请求失败（HTTP " ++ (decimal status ++ codes "）")

-- The outcome of a call, and whether it announces that the session has ended.
unfoldable pub api_outcome : {D : Type 0} → Answer D → Outcome D × Bool
api_outcome r =
    if is_ok r.status
    then (returns r.body, false)
    else (throws (error_text r.error r.status) r.status r.body, r.status == 401)
