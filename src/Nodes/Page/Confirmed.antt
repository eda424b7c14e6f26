-- ===== src/Nodes/Page/Confirmed.antt =====
-- Which requests the page of a node sends (frontend/src/features/nodes/node-detail-page.tsx).
use cdn_platform.Prelude.{
  ◌≡◌, ◌≢◌, ◌↔◌, ◌⊎◌, inl, inr, refl, Bool, true, false, not, [], ◌∷◌, Option, none, some, ◌or◌,
  is_some, Text, eq_of_===, and_parts, arith,
}
use cdn_platform.Types.Node.{NodeUninstallStatus}
use cdn_platform.Confirm.{confirm_disabled, allowed}
use cdn_platform.Nodes.Uninstall as Panel
use cdn_platform.Nodes.Uninstall.{is_offered, can_generate_command}
use cdn_platform.Nodes.Uninstall.Control.{ControlState, check}
use cdn_platform.Nodes.Uninstall.Agreement.{IsReady, is_offered-check}
use cdn_platform.Nodes.Page.{
  PageState, PageRequest, PageEvent, Dialog, handle, press, confirmed, start, offers, upgradable,
  offers_action, is_free, name_of, force_dialog, delete_dialog, post_status, enroll, upgrade,
  prepare, generate, cancel, force_complete, delete_node,
}

-- What holds of the state in which a request is sent.
abbrev pub Allowed : PageState → PageRequest → Type 0
Allowed s (post_status status) = (offers s.node status ≡ true) × (s.status_pending ≡ false)
Allowed s enroll = (is_some s.node ≡ true) × (s.command_pending ≡ false)
Allowed s upgrade = (upgradable s.node ≡ true) × (s.upgrade_pending ≡ false)
Allowed s prepare = offers_action s.node s.uninstall s.uninstall_pending Panel.Action.prepare ≡ true
Allowed s generate =
    offers_action s.node s.uninstall s.uninstall_pending Panel.Action.command ≡ true
Allowed s cancel = offers_action s.node s.uninstall s.uninstall_pending Panel.Action.cancel ≡ true
Allowed s (force_complete confirmation) =
    (s.confirm ≡ some force_dialog)
    × ((s.typed ≡ confirmation) ⊎ (confirmation ≡ []))
    × (s.uninstall_pending ≡ false)
Allowed s (delete_node confirmation) =
    (s.confirm ≡ some delete_dialog)
    × ((s.typed ≡ confirmation) ⊎ (confirmation ≡ []))
    × (s.delete_pending ≡ false)

start_sent :
    (s next : PageState) (b : Bool) (q r : PageRequest)
    → (start s b next q).1 ≡ some r
    → (b ≡ true) × (q ≡ r)
start_sent s next true q r e = (refl, cc)
start_sent s next false q r e = cc

-- A confirmation is sent when the name has been typed, or is empty or unknown.
typed_name :
    (name : Option Text) (typed : Text) (pending : Bool)
    → not (confirm_disabled name typed pending) ≡ true
    → ((typed ≡ (name or [])) ⊎ ((name or []) ≡ [])) × (pending ≡ false)
unfolding confirm_disabled allowed
typed_name none typed pending h = (inr refl, ground arith)
typed_name (some []) typed pending h = (inr refl, ground arith)
typed_name (some (c ∷ name)) typed pending h =
    (inl (eq_of_=== typed (c ∷ name) (ground arith)), ground arith)

force-Allowed :
    (s : PageState) (r : PageRequest)
    → s.confirm ≡ some force_dialog
    → (confirmed s (some force_dialog)).1 ≡ some r
    → Allowed s r
unfolding confirmed
force-Allowed s r opened e =
    let (free, same) = start_sent s _ _ _ r e in
    let (text, rest) = typed_name (name_of s.node) s.typed s.uninstall_pending free in
    rw⁻¹ same (opened, text, rest)

delete-Allowed :
    (s : PageState) (r : PageRequest)
    → s.confirm ≡ some delete_dialog
    → (confirmed s (some delete_dialog)).1 ≡ some r
    → Allowed s r
unfolding confirmed
delete-Allowed s r opened e =
    let (free, same) = start_sent s _ _ _ r e in
    let (text, rest) = typed_name (name_of s.node) s.typed s.delete_pending free in
    rw⁻¹ same (opened, text, rest)

confirmed-Allowed :
    (s : PageState) (dialog : Option Dialog) (r : PageRequest)
    → s.confirm ≡ dialog
    → (confirmed s dialog).1 ≡ some r
    → Allowed s r
unfolding confirmed
confirmed-Allowed s none r opened e = cc
confirmed-Allowed s (some force_dialog) r opened e = force-Allowed s r opened e
confirmed-Allowed s (some delete_dialog) r opened e = delete-Allowed s r opened e

pub handle-Allowed :
    (s : PageState) (e : PageEvent) (r : PageRequest) → (handle s e).1 ≡ some r → Allowed s r
unfolding handle press
handle-Allowed s (PageEvent.press_status status) r e =
    let (free, same) = start_sent s _ _ _ r e in
    let (offered, idle) = and_parts _ _ (and_parts (is_free s) _ free).1 in
    rw⁻¹ same (offered, ground arith)
handle-Allowed s PageEvent.press_enroll r e =
    let (free, same) = start_sent s _ _ _ r e in
    let (there, idle) = and_parts _ _ (and_parts (is_free s) _ free).1 in
    rw⁻¹ same (there, ground arith)
handle-Allowed s PageEvent.press_upgrade r e =
    let (free, same) = start_sent s _ _ _ r e in
    let (there, idle) = and_parts _ _ (and_parts (is_free s) _ free).1 in
    rw⁻¹ same (there, ground arith)
handle-Allowed s (PageEvent.press_panel Panel.Action.prepare) r e =
    let (free, same) = start_sent s _ _ _ r e in rw⁻¹ same (and_parts (is_free s) _ free).1
handle-Allowed s (PageEvent.press_panel Panel.Action.command) r e =
    let (free, same) = start_sent s _ _ _ r e in rw⁻¹ same (and_parts (is_free s) _ free).1
handle-Allowed s (PageEvent.press_panel Panel.Action.cancel) r e =
    let (free, same) = start_sent s _ _ _ r e in rw⁻¹ same (and_parts (is_free s) _ free).1
handle-Allowed s (PageEvent.press_panel Panel.Action.force) r e = cc
handle-Allowed s (PageEvent.press_panel Panel.Action.delete) r e = cc
handle-Allowed s (PageEvent.type_text t) r e = cc
handle-Allowed s PageEvent.dismiss r e = cc
handle-Allowed s PageEvent.confirm_dialog r e = confirmed-Allowed s s.confirm r refl e
handle-Allowed s PageEvent.close_command r e = cc
handle-Allowed s (PageEvent.status_answered b) r e = cc
handle-Allowed s (PageEvent.upgrade_answered b) r e = cc
handle-Allowed s (PageEvent.delete_answered b) r e = cc
handle-Allowed s (PageEvent.enroll_answered b) r e = cc
handle-Allowed s (PageEvent.uninstall_answered b) r e = cc
handle-Allowed s (PageEvent.node_fetched n) r e = cc
handle-Allowed s (PageEvent.uninstall_fetched n) r e = cc

-- The action of the panel that a request stands for.
abbrev pub action_of : PageRequest → Option Panel.Action
action_of prepare = some Panel.Action.prepare
action_of generate = some Panel.Action.command
action_of cancel = some Panel.Action.cancel
action_of _ = none

offered_action :
    (s : PageState) (r : PageRequest) (action : Panel.Action)
    → Allowed s r
    → action_of r ≡ some action
    → offers_action s.node s.uninstall s.uninstall_pending action ≡ true
offered_action s prepare action h e = cc
offered_action s generate action h e = cc
offered_action s cancel action h e = cc
offered_action s (post_status n) action h e = cc
offered_action s enroll action h e = cc
offered_action s upgrade action h e = cc
offered_action s (force_complete t) action h e = cc
offered_action s (delete_node t) action h e = cc

-- While the page holds the state of the removal as the control plane has built it, and the same node,
-- the control plane takes a request that the page sends to prepare the removal exactly if it has a
-- provider for DNS that removes the node's records and no upgrade of the node is under way or left
-- unfinished, one for the command exactly if its own URL is in order, and every one to cancel.
pub handle-IsReady :
    (k : ControlState) (s : PageState) (e : PageEvent) (r : PageRequest) (action : Panel.Action)
    (status : NodeUninstallStatus)
    → s.node ≡ some status.node
    → s.uninstall ≡ some status
    → (status.node.last_heartbeat_at ≢ some [])
    → status.can_generate_command ≡ can_generate_command status
    → (handle s e).1 ≡ some r
    → action_of r ≡ some action
    → (check k [] status action ≡ none) ↔ IsReady k [] status action
handle-IsReady k s e r action status node held seen built sent named =
    let offered = offered_action s r action (handle-Allowed s e r sent) named in
    is_offered-check k status [] s.uninstall_pending action seen built (rw (node, held) at offered)
