-- ===== src/Security/RateDialog/Payload.antt =====
-- What the dialog sends is what the control plane takes
-- (frontend/src/features/security/security-page.tsx, internal/domain/security.go).
use cdn_platform.Prelude.{◌≡◌, ◌<◌, ◌≤◌, true, false, arith, is_truthy, trim_by}
use cdn_platform.Security.RateDialog.{RatePayload, RateState, rate_payload, submit_disabled}
use cdn_platform.Security.Limits.{
  err, threshold_range, normalize_rate_limit_policy, utf8_length, is_go_space, valid_ban_duration,
  with_defaults, check_policy,
}

-- The remaining fields as the browser checks them: a name that is more than spaces and at most 80
-- bytes long, a rate from 1 to 100000, a ban duration of the menu, and, even where the ban is off
-- and its field is not on the screen, a count of at most 100.
pub record IsFilled (s : RateState) : Type 0 where
  pub name : is_truthy (trim_by is_go_space s.name) ≡ true
  pub name-le : utf8_length (trim_by is_go_space s.name) ≤ 80
  pub rps_pos : 1 ≤ s.rps
  pub rps-le : s.rps ≤ 100000
  pub duration : valid_ban_duration s.ban_duration ≡ true
  pub after-le : s.ban_after ≤ 100

module _ (s : RateState) where
  abbrev sent : RatePayload
  sent = with_defaults (rate_payload s)

-- A dialog with the ban switched off, a count above 100 left in its hidden field, the condition off, a
-- name that is more than spaces and has at most 80 bytes in UTF-8, and a rate from 1 to 100000 may be
-- submitted, and the control plane refuses it for that count, whatever the ban duration.
pub hidden_threshold_refused :
    (s : RateState)
    → s.ban_enabled ≡ false
    → 100 < s.ban_after
    → s.conditional ≡ false
    → is_truthy (trim_by is_go_space s.name) ≡ true
    → utf8_length (trim_by is_go_space s.name) ≤ 80
    → 1 ≤ s.rps
    → s.rps ≤ 100000
    → (submit_disabled false s ≡ false)
      × (normalize_rate_limit_policy (rate_payload s) ≡ err threshold_range)
unfolding submit_disabled normalize_rate_limit_policy check_policy rate_payload with_defaults
hidden_threshold_refused s off large plain a b c d = (ground arith, ground arith)
