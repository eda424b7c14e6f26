-- ===== src/Messages.antt =====
-- The message centre (frontend/src/components/message-center.tsx).
pub mod Paths
mod Tests
use cdn_platform.Prelude.{
  ℕ, Bool, true, false, not, ◌&&◌, ◌||◌, List, [], filter, Option, none, some, Text, codes, ◌===◌,
  ◌++◌, ◌==◌, is_truthy, if◌then◌else◌,
}
use cdn_platform.Types.Console.{Message, MessagePage, Severity}
use cdn_platform.Uri.{encode_uri_component, before}

abbrev present : Option Text → Bool
present none = false
present (some t) = is_truthy t

-- `message.read_at` as a condition.
abbrev pub is_read : Message → Bool
is_read message = present message.read_at

unfoldable pub visible_messages : Text → Option MessagePage → List Message
unfolding ◌===◌
visible_messages chosen none = []
visible_messages chosen (some page) =
    filter (λ message. chosen === codes "all" || not (is_read message)) page.messages

unfoldable pub mark_all_disabled : Option MessagePage → Bool → Bool
mark_all_disabled none pending = true
mark_all_disabled (some page) pending = page.unread_count == 0 || pending

-- Where a message leads.
pub data Target : Type 0 where
  nowhere settings : Target
  site node : (id : Text) → Target

abbrev pub resource : Text → Option Text → Option Text → Option Text
resource type none id = none
resource type (some t) none = none
resource type (some t) (some id) = if (t === type) && is_truthy id then some id else none

abbrev pub or_target : Option Text → (Text → Target) → Target → Target
or_target none go other = other
or_target (some id) go other = go id

unfoldable pub target : Message → Target
unfolding ◌===◌
target message =
    or_target (resource (codes "site") message.resource_type message.resource_id) Target.site (
      or_target (resource (codes "node") message.resource_type message.resource_id) Target.node (
        if message.category === codes "backup" || message.category === codes "restore"
        then Target.settings
        else Target.nowhere))

-- The path of `navigate`; encoding an id that is no Unicode text throws (`none`).
unfoldable pub target_path : Target → Option Text
unfolding encode_uri_component
target_path Target.nowhere = none
target_path Target.settings = some (codes "/settings")
target_path (Target.site id) = before (codes "/sites/") (encode_uri_component id)
target_path (Target.node id) = before (codes "/nodes/") (encode_uri_component id)

-- `openMessage`: whether the message is marked as read, and the path that is opened; only then the
-- panel closes.
unfoldable pub open_message : Message → Bool × Option Text
unfolding target target_path
open_message message = (not (is_read message), target_path (target message))

unfoldable pub severity_label : Severity → Text
severity_label Severity.info = codes "信息"
severity_label Severity.success = codes "成功"
severity_label Severity.warning = codes "注意"
severity_label Severity.error = codes "失败"
