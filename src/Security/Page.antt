-- ===== src/Security/Page.antt =====
-- The security page (frontend/src/features/security/security-page.tsx, `SecurityPage`): its rows, its
-- dialogs and its requests.
pub mod Shown
pub mod Removal
mod Tests
use cdn_platform.Prelude.{
  ℕ, Bool, true, false, not, ◌&&◌, ◌||◌, List, [], ◌∷◌, ◌++◌, map, get_elem?, length, Option, none,
  some, ◌or◌, is_some, Text, codes, decimal, join, ◌or_text◌, is_truthy, ltb, leb, if◌then◌else◌,
}
use cdn_platform.Types.Security.{
  SecurityPolicy, RateLimitPolicy, SecurityBan, SecurityNode, SecurityOverview,
}
use cdn_platform.Security.Coverage.{is_applied}

-- The two cells of a node about its abilities, and the one about its version.
pub data Ability : Type 0 where
  to_upgrade configured waiting : Ability

abbrev pub ability : Bool → Bool → Ability
ability capable done =
    if capable then if done then Ability.configured else Ability.waiting else Ability.to_upgrade

pub data NodeCell : Type 0 where
  in_error applied awaiting : NodeCell

abbrev is_set : Option Text → Bool
is_set none = false
is_set (some text) = is_truthy text

unfoldable pub node_cell : SecurityNode → NodeCell
node_cell node =
    if is_set node.last_error
    then NodeCell.in_error
    else if is_applied node
    then NodeCell.applied
    else NodeCell.awaiting

-- The cell of a rate limit about the responses that count.
abbrev class_text : ℕ → Text
class_text code = decimal code ++ codes "xx"

unfoldable pub response_cell : RateLimitPolicy → Text
unfolding join decimal
response_cell policy =
    if policy.response_condition_enabled
    then join (codes "、") (map class_text (policy.response_status_classes or []))
      or_text codes "无有效条件"
    else codes "全部请求"

-- The caption of the active bans, of which only the first are sent.
unfoldable pub ban_caption : SecurityOverview → Text
unfolding decimal
ban_caption overview =
    if ltb (length overview.bans) overview.active_ban_count
    then codes "共 "
      ++ (decimal overview.active_ban_count
          ++ (codes " 条，显示前 " ++ (decimal (length overview.bans) ++ codes " 条")))
    else decimal overview.active_ban_count ++ codes " 条"

pub data Kind : Type 0 where
  policy rate : Kind

pub record Removed : Type 0 where
  pub kind : Kind
  pub id : Text
  pub name : Text

-- A dialog that is open is on an existing item or on a new one (`none`).
pub record SecurityState : Type 0 where
  pub overview : Option SecurityOverview
  pub policy_dialog : Option (Option SecurityPolicy)
  pub rate_dialog : Option (Option RateLimitPolicy)
  pub remove : Option Removed
  pub deploy_pending : Bool
  pub remove_pending : Option Removed
  pub unban_pending : Bool

pub data SecurityRequest : Type 0 where
  deploy : SecurityRequest
  delete_item : Removed → SecurityRequest
  delete_ban : (ip : Text) → SecurityRequest

-- Rows are numbered over all pages. An answer is `none` where the request has failed.
pub data SecurityEvent : Type 0 where
  press_deploy press_new_policy press_new_rate : SecurityEvent
  press_policy press_rate press_remove_policy press_remove_rate press_unban : ℕ → SecurityEvent
  close_policy close_rate dismiss confirm_remove : SecurityEvent
  deploy_answered remove_answered unban_answered : Option SecurityOverview → SecurityEvent
  saved fetched : SecurityOverview → SecurityEvent

abbrev policies_of : Option SecurityOverview → List SecurityPolicy
policies_of none = []
policies_of (some overview) = overview.policies

abbrev rates_of : Option SecurityOverview → List RateLimitPolicy
rates_of none = []
rates_of (some overview) = overview.rate_limit_policies

abbrev bans_of : Option SecurityOverview → List SecurityBan
bans_of none = []
bans_of (some overview) = overview.bans

-- What the button in the row of a policy removes: a builtin one has no such button.
abbrev pub removable_policy : Option SecurityPolicy → Option Removed → Option Removed
removable_policy none old = old
removable_policy (some p) old =
    if p.builtin then old else some (record { kind = policy; id = p.id; name = p.name })

abbrev pub removable_rate : Option RateLimitPolicy → Option Removed → Option Removed
removable_rate none old = old
removable_rate (some p) old = some (record { kind = rate; id = p.id; name = p.name })

abbrev opened {ℓ} : {A : Type ℓ} → Option A → Option (Option A) → Option (Option A)
opened none old = old
opened (some item) old = some (some item)

-- While a dialog is open, what is behind it cannot be pressed.
abbrev pub has_dialog : SecurityState → Bool
has_dialog s = is_some s.policy_dialog || (is_some s.rate_dialog || is_some s.remove)

abbrev pressed : SecurityState → SecurityEvent → SecurityState
pressed s press_new_policy = record s { policy_dialog = some none }
pressed s press_new_rate = record s { rate_dialog = some none }
pressed s (press_policy i) = record s {
  policy_dialog = opened (get_elem? (policies_of s.overview) i) s.policy_dialog;
}
pressed s (press_rate i) = record s {
  rate_dialog = opened (get_elem? (rates_of s.overview) i) s.rate_dialog;
}
pressed s (press_remove_policy i) = record s {
  remove = removable_policy (get_elem? (policies_of s.overview) i) s.remove;
}
pressed s (press_remove_rate i) = record s {
  remove = removable_rate (get_elem? (rates_of s.overview) i) s.remove;
}
pressed s _ = s

-- `applyResult`, and what else an answer or a closed dialog changes.
abbrev pub with_overview : Option SecurityOverview → SecurityState → SecurityState
with_overview none s = s
with_overview (some overview) s = record s { overview = some overview }

abbrev pub closed_after : Option SecurityOverview → Option Removed → Option Removed
closed_after none remove = remove
closed_after (some overview) remove = none

unfoldable pub change : SecurityState → SecurityEvent → SecurityState
change s close_policy = record s { policy_dialog = none }
change s close_rate = record s { rate_dialog = none }
change s dismiss = record s { remove = none }
change s (saved overview) = record s { overview = some overview }
change s (fetched overview) = record s { overview = some overview }
change s (deploy_answered a) = with_overview a (record s { deploy_pending = false })
change s (unban_answered a) = with_overview a (record s { unban_pending = false })
change s (remove_answered a) =
    with_overview a (record s { remove_pending = none; remove = closed_after a s.remove })
change s e = if has_dialog s then s else pressed s e

abbrev unbanned : SecurityState → Option SecurityBan → SecurityState × Option SecurityRequest
unbanned s none = (s, none)
unbanned s (some ban) =
    if has_dialog s || s.unban_pending
    then (s, none)
    else (record s { unban_pending = true }, some (delete_ban ban.ip))

-- `onConfirm`; the button of the confirmation is disabled while a removal is open.
abbrev pub removal : SecurityState → Option Removed → SecurityState × Option SecurityRequest
removal s none = (s, none)
removal s (some target) =
    if is_some s.remove_pending
    then (s, none)
    else (record s { remove_pending = some target }, some (delete_item target))

unfoldable pub handle : SecurityState → SecurityEvent → SecurityState × Option SecurityRequest
unfolding change
handle s press_deploy =
    if has_dialog s || s.deploy_pending
    then (s, none)
    else (record s { deploy_pending = true }, some deploy)
handle s (press_unban i) = unbanned s (get_elem? (bans_of s.overview) i)
handle s confirm_remove = removal s s.remove
handle s e = (change s e, none)
