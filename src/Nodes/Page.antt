-- ===== src/Nodes/Page.antt =====
-- The page of one node (frontend/src/features/nodes/node-detail-page.tsx, `NodeDetailPage`): its
-- requests, the dialog of a command and the two confirmations.
pub mod Confirmed
mod Tests
use cdn_platform.Prelude.{
  Bool, true, false, not, ◌&&◌, ◌||◌, [], ◌∷◌, Option, none, some, ◌or◌, is_some, Text, codes,
  includes, is_truthy, if◌then◌else◌,
}
use cdn_platform.Types.Node.{Node, NodeStatus, UninstallJob, NodeUninstallStatus}
use cdn_platform.Confirm.{confirm_disabled}
use cdn_platform.Nodes.{offered_status}
use cdn_platform.Nodes.Uninstall as Panel
use cdn_platform.Nodes.Uninstall.{is_offered}

pub data Dialog : Type 0 where
  force_dialog delete_dialog : Dialog

-- The state, the requests that are open (`force_sent`: that of the confirmation), and the answers
-- that are held; `typed` is the input of the
-- confirmation that is open.
pub record PageState : Type 0 where
  pub node : Option Node
  pub uninstall : Option NodeUninstallStatus
  pub command : Text
  pub confirm : Option Dialog
  pub typed : Text
  pub status_pending : Bool
  pub command_pending : Bool
  pub upgrade_pending : Bool
  pub uninstall_pending : Bool
  pub force_sent : Bool
  pub delete_pending : Bool
  pub left : Bool

pub data PageRequest : Type 0 where
  post_status : NodeStatus → PageRequest
  enroll upgrade prepare generate cancel : PageRequest
  force_complete delete_node : (confirmation : Text) → PageRequest

pub data PageEvent : Type 0 where
  press_status : NodeStatus → PageEvent
  press_enroll press_upgrade : PageEvent
  press_panel : Panel.Action → PageEvent
  type_text : Text → PageEvent
  dismiss confirm_dialog close_command : PageEvent
  status_answered upgrade_answered delete_answered : Bool → PageEvent
  enroll_answered : Option Text → PageEvent
  uninstall_answered : Option NodeUninstallStatus → PageEvent
  node_fetched : Node → PageEvent
  uninstall_fetched : NodeUninstallStatus → PageEvent

-- The buttons of the card for operations.
abbrev pub offers : Option Node → NodeStatus → Bool
offers none status = false
offers (some node) status = offered_status node.status status

abbrev pub upgradable : Option Node → Bool
upgradable none = false
upgradable (some node) = node.can_upgrade

abbrev pub offers_action : Option Node → Option NodeUninstallStatus → Bool → Panel.Action → Bool
offers_action none status pending action = false
offers_action (some node) status pending action = is_offered node status pending action

-- While a dialog is open, what is behind it cannot be pressed.
abbrev pub is_free : PageState → Bool
is_free s = not (is_some s.confirm) && not (is_truthy s.command)

abbrev pub start : PageState → Bool → PageState → PageRequest → PageState × Option PageRequest
start s true next request = (next, some request)
start s false next request = (s, none)

unfoldable pub press : PageState → PageEvent → PageState × Option PageRequest
unfolding offered_status is_offered
press s (press_status status) =
    start s (is_free s && (offers s.node status && not s.status_pending))
      (record s { status_pending = true }) (post_status status)
press s press_enroll =
    start s (is_free s && (is_some s.node && not s.command_pending))
      (record s { command_pending = true }) enroll
press s press_upgrade =
    start s (is_free s && (upgradable s.node && not s.upgrade_pending))
      (record s { upgrade_pending = true }) upgrade
press s (press_panel Panel.Action.prepare) =
    start s (is_free s && offers_action s.node s.uninstall s.uninstall_pending Panel.Action.prepare)
      (record s { uninstall_pending = true }) prepare
press s (press_panel Panel.Action.command) =
    start s (is_free s && offers_action s.node s.uninstall s.uninstall_pending Panel.Action.command)
      (record s { uninstall_pending = true }) generate
press s (press_panel Panel.Action.cancel) =
    start s (is_free s && offers_action s.node s.uninstall s.uninstall_pending Panel.Action.cancel)
      (record s { uninstall_pending = true }) cancel
press s (press_panel Panel.Action.force) = (
  if is_free s && offers_action s.node s.uninstall s.uninstall_pending Panel.Action.force
      then record s { confirm = some force_dialog; typed = [] }
      else s,
  none,
)
press s (press_panel Panel.Action.delete) = (
  if is_free s && offers_action s.node s.uninstall s.uninstall_pending Panel.Action.delete
      then record s { confirm = some delete_dialog; typed = [] }
      else s,
  none,
)
press s _ = (s, none)

-- `node?.name`, the text to be typed; without it nothing has to be typed.
abbrev pub name_of : Option Node → Option Text
name_of none = none
name_of (some node) = some node.name

-- `onConfirm` of the dialog that is open, if its button can be pressed.
unfoldable pub confirmed : PageState → Option Dialog → PageState × Option PageRequest
unfolding confirm_disabled
confirmed s none = (s, none)
confirmed s (some force_dialog) =
    start s (not (confirm_disabled (name_of s.node) s.typed s.uninstall_pending))
      (record s { uninstall_pending = true; force_sent = true })
      (force_complete (name_of s.node or []))
confirmed s (some delete_dialog) =
    start s (not (confirm_disabled (name_of s.node) s.typed s.delete_pending))
      (record s { delete_pending = true }) (delete_node (name_of s.node or []))

-- `onSuccess` of the panel's mutation shows a command if the answer has one.
abbrev shown_command : Option Text → Text → Text
shown_command none old = old
shown_command (some text) old = if is_truthy text then text else old

-- The end of a request. A confirmation that has sent it closes; one whose request fails stays.
unfoldable pub answer : PageState → PageEvent → PageState
answer s (status_answered ok) = record s { status_pending = false }
answer s (upgrade_answered ok) = record s { upgrade_pending = false }
answer s (enroll_answered none) = record s { command_pending = false }
answer s (enroll_answered (some text)) = record s { command_pending = false; command = text }
answer s (uninstall_answered none) = record s { uninstall_pending = false; force_sent = false }
answer s (uninstall_answered (some result)) = record s {
  uninstall_pending = false;
  force_sent = false;
  command = shown_command result.uninstall_command s.command;
  confirm = if s.force_sent then none else s.confirm;
  typed = if s.force_sent then [] else s.typed;
}
answer s (delete_answered true) = record s {
  delete_pending = false;
  confirm = none;
  typed = [];
  left = true;
}
answer s (delete_answered false) = record s { delete_pending = false }
answer s (node_fetched node) = record s { node = some node }
answer s (uninstall_fetched status) = record s { uninstall = some status }
answer s (type_text text) = if is_some s.confirm then record s { typed = text } else s
answer s dismiss = record s { confirm = none; typed = [] }
answer s close_command = record s { command = [] }
answer s _ = s

unfoldable pub handle : PageState → PageEvent → PageState × Option PageRequest
unfolding press answer confirmed
handle s confirm_dialog = confirmed s s.confirm
handle s e = let (t, request) = press s e in (answer t e, request)
