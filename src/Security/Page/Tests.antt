-- ===== src/Security/Page/Tests.antt =====
-- A page with a built-in policy and another one, and the theorem about its removals.
use cdn_platform.Prelude.{◌≡◌, refl, Bool, true, false, [], ◌∷◌, none, some, Text, codes}
use cdn_platform.Types.Security.{SecurityPolicy, SecurityOverview, PolicyAction}
use cdn_platform.Security.Page.{SecurityState, SecurityEvent, Removed, policy, handle, change}
use cdn_platform.Security.Page.Shown.{WasShown, begin, step, fresh}
use cdn_platform.Security.Page.Removal.{handle-WasShown}

abbrev rule : Text → Bool → SecurityPolicy
rule id builtin = record {
  id = id;
  builtin = builtin;
  name = codes "rule";
  enabled = true;
  pattern = [];
  action = PolicyAction.block;
  ban_duration_seconds = none;
  priority = 1;
  created_at = [];
  updated_at = [];
}

abbrev overview : SecurityOverview
overview = record {
  policies = rule (codes "p1") true ∷ rule (codes "p2") false ∷ [];
  rate_limit_policies = [];
  bans = [];
  active_ban_count = 0;
  events = [];
  nodes = [];
  deployment_error = none;
}

abbrev loaded : SecurityState
loaded = (handle fresh (SecurityEvent.fetched overview)).0

abbrev chosen : SecurityState
chosen = (handle loaded (SecurityEvent.press_remove_policy 1)).0

builtin_stays : (handle loaded (SecurityEvent.press_remove_policy 0)).0.remove ≡ none
unfolding handle change
builtin_stays = refl

-- The success of a removal closes the confirmation of another item, which has not been removed.
abbrev other : SecurityState
other =
    (handle (handle (handle chosen SecurityEvent.confirm_remove).0 SecurityEvent.dismiss).0
      (SecurityEvent.press_remove_policy 1)).0

closes :
    (other.remove ≡ some (record { kind = policy; id = codes "p2"; name = codes "rule" }))
    × ((handle other (SecurityEvent.remove_answered (some overview))).0.remove ≡ none)
unfolding handle change
closes = (refl, refl)

abbrev second : Removed
second = record { kind = policy; id = codes "p2"; name = codes "rule" }

handle-WasShown_example :
    WasShown (overview ∷ []) second × (chosen.remove ≡ some second) × (chosen.remove_pending ≡ none)
unfolding handle change
handle-WasShown_example =
    handle-WasShown SecurityEvent.confirm_remove second
      (step (SecurityEvent.press_remove_policy 1) (step (SecurityEvent.fetched overview) begin))
      refl
