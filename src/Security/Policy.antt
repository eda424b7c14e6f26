-- ===== src/Security/Policy.antt =====
-- The dialog of an access policy (frontend/src/features/security/security-page.tsx).
pub mod Duration
mod Tests
use cdn_platform.Prelude.{
  ℕ, Bool, true, false, ◌&&◌, List, [], ◌∷◌, Option, none, some, Text, codes, ◌or◌, ◌==◌, any,
  if◌then◌else◌,
}
use cdn_platform.Types.Security.{SecurityPolicy, PolicyAction}

pub record PolicyState : Type 0 where
  pub name : Text
  pub priority : ℕ
  pub action : PolicyAction
  pub duration : ℕ
  pub enabled : Bool
  pub pattern : Text

-- The state that the dialog opens with, for a new policy (`none`) and for an existing one.
unfoldable pub policy_state : Option SecurityPolicy → PolicyState
policy_state none = record {
  name = [];
  priority = 100;
  action = PolicyAction.ban;
  duration = 21600;
  enabled = true;
  pattern = [];
}
policy_state (some existing) = record {
  name = existing.name;
  priority = existing.priority;
  action = existing.action;
  duration = existing.ban_duration_seconds or 21600;
  enabled = existing.enabled;
  pattern = existing.pattern;
}

-- The durations of the menu, in this dialog and in the one of rate limits.
abbrev pub menu_durations : List ℕ
menu_durations = 3600 ∷ 21600 ∷ 43200 ∷ 86400 ∷ 259200 ∷ 604800 ∷ []

pub data Control : Type 0 where
  name pattern : Text → Control
  priority duration : ℕ → Control
  action : PolicyAction → Control
  enabled : Bool → Control

abbrev is_ban : PolicyAction → Bool
is_ban PolicyAction.ban = true
is_ban PolicyAction.block = false

-- The menu of durations is there only for a ban, and offers only its own values.
unfoldable pub use_control : PolicyState → Control → PolicyState
use_control s (name v) = record s { name = v }
use_control s (pattern v) = record s { pattern = v }
use_control s (priority v) = record s { priority = v }
use_control s (action v) = record s { action = v }
use_control s (enabled v) = record s { enabled = v }
use_control s (duration v) =
    if is_ban s.action && any (λ d. v == d) menu_durations then record s { duration = v } else s

pub record PolicyPayload : Type 0 where
  pub name : Text
  pub enabled : Bool
  pub pattern : Text
  pub action : PolicyAction
  pub ban_duration_seconds : ℕ
  pub priority : ℕ

unfoldable pub policy_payload : PolicyState → PolicyPayload
policy_payload s = record {
  name = s.name;
  enabled = s.enabled;
  pattern = s.pattern;
  action = s.action;
  ban_duration_seconds = if is_ban s.action then s.duration else 0;
  priority = s.priority;
}

abbrev label_rows : List (ℕ × Text)
label_rows =
    (3600, codes "1 小时")
    ∷ (21600, codes "6 小时")
    ∷ (43200, codes "12 小时")
    ∷ (86400, codes "24 小时")
    ∷ (259200, codes "3 天")
    ∷ (604800, codes "7 天")
    ∷ []

abbrev label_in : List (ℕ × Text) → ℕ → Text
label_in [] seconds = codes "--"
label_in ((d, label) ∷ rows) seconds = if d == seconds then label else label_in rows seconds

-- `durationLabel`
unfoldable pub duration_label : Option ℕ → Text
duration_label none = codes "--"
duration_label (some seconds) = label_in label_rows seconds
