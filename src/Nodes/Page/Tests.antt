-- ===== src/Nodes/Page/Tests.antt =====
-- A paused node whose removal is forced, and the theorems about its page.
use cdn_platform.Prelude.{◌≡◌, ◌↔◌, refl, false, [], none, some, codes}
use cdn_platform.Types.Node.{NodeUninstallStatus}
use cdn_platform.Confirm.{confirm_disabled, allowed}
use cdn_platform.Nodes.Tests.{paused, removal, control}
use cdn_platform.Nodes.Uninstall.Control.{check}
use cdn_platform.Nodes.Uninstall.Agreement.{IsReady}
use cdn_platform.Nodes.Uninstall as Panel
use cdn_platform.Nodes.Uninstall.{
  is_offered, is_shown, is_enabled, can_generate_command, current_job, deletable,
}
use cdn_platform.Nodes.Page.{
  PageState, PageEvent, handle, press, answer, confirmed, force_complete, prepare,
}
use cdn_platform.Nodes.Page.Confirmed.{handle-IsReady}

abbrev page : NodeUninstallStatus → PageState
page status = record {
  node = some paused;
  uninstall = some status;
  command = [];
  confirm = none;
  typed = [];
  status_pending = false;
  command_pending = false;
  upgrade_pending = false;
  uninstall_pending = false;
  force_sent = false;
  delete_pending = false;
  left = false;
}

all_of_it : Unit {0}
unfolding handle press answer confirmed confirm_disabled allowed is_offered is_shown is_enabled
    current_job deletable can_generate_command
all_of_it = tt

-- The force dialog is open and the name typed.
abbrev typed : PageState
typed =
    (handle (handle (page removal) (PageEvent.press_panel Panel.Action.force)).0
      (PageEvent.type_text (codes "edge"))).0

forces : (handle typed PageEvent.confirm_dialog).1 ≡ some (force_complete (codes "edge"))
unfolding all_of_it
forces = refl

abbrev untouched : NodeUninstallStatus
untouched = record removal { job = none }

handle-IsReady_example :
    (check control [] untouched Panel.Action.prepare ≡ none)
    ↔ IsReady control [] untouched Panel.Action.prepare
unfolding all_of_it
handle-IsReady_example =
    handle-IsReady control (page untouched) (PageEvent.press_panel Panel.Action.prepare) prepare
      Panel.Action.prepare untouched refl refl (λ e. cc) refl refl refl
