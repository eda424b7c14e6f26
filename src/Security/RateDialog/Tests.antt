-- ===== src/Security/RateDialog/Tests.antt =====
-- Tests of the rate-limit dialog, and its theorems at a policy with a ban.
use cdn_platform.Prelude.{◌≡◌, refl, true, false, [], ◌∷◌, none, codes, decimal, arith, trim_by}
use cdn_platform.Security.RateDialog.{
  RateState, Control, rate_state, use_control, sort_numbers, rate_payload, submit_disabled,
}
use cdn_platform.Security.RateDialog.Session.{
  BanIsConditional, session, session-BanIsConditional, rate_state-BanIsConditional,
}
use cdn_platform.Security.Limits.{
  err, threshold_range, normalize_rate_limit_policy, is_go_space, utf8_length,
}
use cdn_platform.Security.RateDialog.Payload.{hidden_threshold_refused}

dialog : Unit {0}
unfolding rate_state use_control rate_payload submit_disabled normalize_rate_limit_policy
    sort_numbers decimal trim_by
dialog = tt

with_ban :
    (use_control
      (record (rate_state none) { classes = 2 ∷ 5 ∷ [] })
      (Control.ban_enabled true)).classes
    ≡ 5 ∷ []
unfolding dialog
with_ban = refl

sorted : sort_numbers (5 ∷ 4 ∷ 2 ∷ []) ≡ 2 ∷ 4 ∷ 5 ∷ []
unfolding dialog
sorted = refl

session-BanIsConditional_example :
    BanIsConditional
      (session (rate_state none) (Control.ban_enabled true ∷ Control.class_box 4 false ∷ []))
session-BanIsConditional_example =
    session-BanIsConditional (Control.ban_enabled true ∷ Control.class_box 4 false ∷ [])
      (rate_state none) rate_state-BanIsConditional

abbrev filled : RateState
filled = record {
  name = codes "api";
  rps = 20;
  enabled = true;
  conditional = true;
  classes = 5 ∷ 4 ∷ [];
  ban_enabled = true;
  ban_after = 3;
  ban_duration = 3600;
}

abbrev hidden : RateState
hidden = record filled { ban_enabled = false; conditional = false; ban_after = 500 }

hidden_threshold_refused_example :
    (submit_disabled false hidden ≡ false)
    × (normalize_rate_limit_policy (rate_payload hidden) ≡ err threshold_range)
unfolding dialog utf8_length is_go_space
hidden_threshold_refused_example =
    hidden_threshold_refused hidden refl (omega arith) refl refl (omega arith) (omega arith)
      (omega arith)
