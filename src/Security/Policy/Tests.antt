-- ===== src/Security/Policy/Tests.antt =====
-- Tests of the dialog of an access policy.
use cdn_platform.Prelude.{◌≡◌, refl, true, List, [], ◌∷◌, none, some, codes}
use cdn_platform.Types.Security.{SecurityPolicy, PolicyAction}
use cdn_platform.Security.Policy.{Control, policy_state, use_control, policy_payload}
use cdn_platform.Security.Policy.Duration.{session}

abbrev stored : SecurityPolicy
stored = record {
  id = codes "p1";
  builtin = true;
  name = codes "php";
  enabled = true;
  pattern = codes "a";
  action = PolicyAction.block;
  ban_duration_seconds = none;
  priority = 1;
  created_at = [];
  updated_at = [];
}

abbrev clicks : List Control
clicks =
    Control.duration 3600
    ∷ Control.action PolicyAction.ban
    ∷ Control.duration 43200
    ∷ Control.duration 5
    ∷ []

sends : (policy_payload (session (policy_state (some stored)) clicks)).ban_duration_seconds ≡ 43200
unfolding policy_payload policy_state use_control
sends = refl
