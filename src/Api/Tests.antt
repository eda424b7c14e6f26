-- ===== src/Api/Tests.antt =====
-- Tests of the client, and its theorems at a POST with a token and at a refused answer.
use cdn_platform.Prelude.{
  ◌≡◌, refl, Bool, true, false, not, ◌&&◌, List, [], ◌∷◌, Option, none, some, is_some, Text, codes,
  is_truthy, if◌then◌else◌,
}
use cdn_platform.Api.{RequestInit, Answer, header, build_request, csrf_header, api_outcome, throws}
use cdn_platform.Api.Requests.{Answers, api_outcome-Answers}

abbrev post : RequestInit
post = record { method = some (codes "post"); body = some (codes "{}"); headers = [] }

abbrev refused : Answer Text
refused = record { status = 401; body = some []; error = none }

posted :
    ((build_request (codes "tok") (codes "/api/logout") post).method ≡ codes "POST")
    × (header csrf_header (build_request (codes "tok") (codes "/api/logout") post).headers
        ≡ some (codes "tok"))
unfolding build_request
posted = (refl, refl)

message : (api_outcome refused).0 ≡ throws (codes "请求失败（HTTP 401）") 401 (some [])
unfolding api_outcome cdn_platform.Prelude.decimal
message = refl

api_outcome-Answers_example : Answers refused (api_outcome refused)
api_outcome-Answers_example = api_outcome-Answers refused
