-- ===== src/Settings/Cloudflare.antt =====
-- The form of the DNS provider (frontend/src/features/settings/settings-page.tsx, `CloudflareForm`).
use cdn_platform.Prelude.{
  ◌≡◌, Bool, true, false, not, ◌&&◌, ◌||◌, [], Option, none, some, Text, is_truthy, Bool-cases, inl,
  inr, arith, if◌then◌else◌,
}
use cdn_platform.Types.Settings.{CloudflareSettings}
use cdn_platform.Settings.Pending.{
  Action, Pending, Answer, save, test, reset, done, idle, busy, mark,
}

pub record CloudflareForm : Type 0 where
  pub settings : CloudflareSettings
  pub token : Text
  pub pending : Pending

unfoldable pub cloudflare_form : CloudflareSettings → CloudflareForm
cloudflare_form settings = record { settings = settings; token = []; pending = idle }

pub data CloudflareRequest : Type 0 where
  put_token test_token : (token : Text) → CloudflareRequest
  delete_token : CloudflareRequest

unfoldable pub cloudflare_disabled : Action → CloudflareForm → Bool
unfolding busy
cloudflare_disabled save f = busy f.pending || not (is_truthy f.token)
cloudflare_disabled test f =
    busy f.pending || (not f.settings.configured && not (is_truthy f.token))
cloudflare_disabled reset f = busy f.pending || not f.settings.override_configured

abbrev pub cloudflare_request : Action → CloudflareForm → CloudflareRequest
cloudflare_request save f = put_token f.token
cloudflare_request test f = test_token f.token
cloudflare_request reset f = delete_token

unfoldable pub press_cloudflare :
    Action → CloudflareForm → CloudflareForm × Option CloudflareRequest
unfolding cloudflare_disabled mark
press_cloudflare a f =
    if cloudflare_disabled a f
    then (f, none)
    else (record f { pending = mark a true f.pending }, some (cloudflare_request a f))

unfoldable pub cloudflare_answered : Action → Answer → CloudflareForm → CloudflareForm
unfolding mark
cloudflare_answered save done f = record f { pending = mark save false f.pending; token = [] }
cloudflare_answered reset done f = record f { pending = mark reset false f.pending; token = [] }
cloudflare_answered a r f = record f { pending = mark a false f.pending }

-- A request that is worth sending: a token that is saved is not empty, an empty token is only tested
-- where one is stored, and only an own token is given up.
abbrev pub IsUseful : CloudflareForm → CloudflareRequest → Type 0
IsUseful f (put_token token) = is_truthy token ≡ true
IsUseful f (test_token token) = (is_truthy token || f.settings.configured) ≡ true
IsUseful f delete_token = f.settings.override_configured ≡ true

request-IsUseful :
    (a : Action) (f : CloudflareForm)
    → cloudflare_disabled a f ≡ false
    → IsUseful f (cloudflare_request a f)
unfolding cloudflare_disabled
request-IsUseful save f h = ground arith
request-IsUseful test f h = ground arith
request-IsUseful reset f h = ground arith

at_rest :
    (a : Action) (f : CloudflareForm) → cloudflare_disabled a f ≡ false → busy f.pending ≡ false
unfolding cloudflare_disabled
at_rest save f h = ground arith
at_rest test f h = ground arith
at_rest reset f h = ground arith

-- Every request that a press sends is useful, and is sent while no other one is open.
pub press_cloudflare-IsUseful :
    (a : Action) (f : CloudflareForm) (r : CloudflareRequest)
    → (press_cloudflare a f).1 ≡ some r
    → IsUseful f r × (busy f.pending ≡ false)
unfolding press_cloudflare
press_cloudflare-IsUseful a f r e = elim (Bool-cases (cloudflare_disabled a f)) [
  | inl shut ↦ absurd (cc (rw (press_cloudflare, shut) at e))
  | inr free ↦
      let same : some (cloudflare_request a f) ≡ some r = rw (press_cloudflare, free) at e in
      let here : cloudflare_request a f ≡ r = cc in
      (rw⁻¹ here (request-IsUseful a f free), at_rest a f free)
]
