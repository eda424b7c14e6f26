-- ===== src/Monitoring/Targets.antt =====
-- The targets of the monitoring page, frontend/src/features/monitoring/monitoring-page.tsx
-- (`MonitoringPage`, `CreateTargetDialog`, `EditTargetDialog`): the list, the three dialogs over it and
-- the four requests. The dialogs are modal, which is what the dialog library documents.
pub mod Sent
pub mod Exclusion
mod Tests
use cdn_platform.Prelude.{
  ℕ, ◌+◌, ◌-◌, Bool, true, false, not, ◌&&◌, ◌||◌, List, [], get_elem?, is_some, Option, none, some,
  Text, ◌===◌, is_truthy, trim, if◌then◌else◌,
}
use cdn_platform.Types.Monitoring.{MonitoringTarget}
use cdn_platform.Monitoring.{create_disabled}

-- The dialog that renames, which a change of its target builds anew.
pub record Editing : Type 0 where
  pub target : MonitoringTarget
  pub name : Text
  pub pending : Bool

-- `stray` counts the open requests of dialogs for renaming that were closed before their answer.
pub record TargetsState : Type 0 where
  pub targets : List MonitoringTarget
  pub create_open : Bool
  pub name : Text
  pub address : Text
  pub create_pending : Bool
  pub edit : Option Editing
  pub stray : ℕ
  pub remove : Option MonitoringTarget
  pub remove_pending : Bool
  pub toggle_pending : Bool

unfoldable pub initial : List MonitoringTarget → TargetsState
initial targets = record {
  targets = targets;
  create_open = false;
  name = [];
  address = [];
  create_pending = false;
  edit = none;
  stray = 0;
  remove = none;
  remove_pending = false;
  toggle_pending = false;
}

pub data Request : Type 0 where
  create : (name address : Text) → Request
  rename : (id name : Text) → Request
  delete : (id : Text) → Request
  toggle : (id : Text) (enabled : Bool) → Request

-- An answer says whether the request was done. The row of a target is given by its index.
pub data Event : Type 0 where
  fetched : List MonitoringTarget → Event
  press_create dismiss_create submit_create : Event
  set_name set_address set_edit_name : Text → Event
  dismiss_edit submit_edit dismiss_remove confirm_remove : Event
  press_edit press_remove : (row : ℕ) → Event
  press_toggle : (row : ℕ) (enabled : Bool) → Event
  create_answered edit_answered stray_answered remove_answered toggle_answered :
      (done : Bool) → Event

-- While a dialog is open, what is behind it cannot be pressed.
abbrev pub has_dialog : TargetsState → Bool
has_dialog s = s.create_open || (is_some s.edit || is_some s.remove)

abbrev pub fresh : MonitoringTarget → Editing
fresh target = record { target = target; name = target.name; pending = false }

-- `disabled` of the button that saves a name.
unfoldable pub edit_disabled : Editing → Bool
unfolding trim ◌===◌
edit_disabled e = not (is_truthy (trim e.name)) || (trim e.name === e.target.name || e.pending)

abbrev pub picked {ℓ} :
    {A : Type ℓ} → (MonitoringTarget → A) → Option MonitoringTarget → Option A → Option A
picked f none old = old
picked f (some target) old = some (f target)

abbrev pub named : Text → Option Editing → Option Editing
named v none = none
named v (some e) = some (record e { name = v })

abbrev pub unpending : Option Editing → Option Editing
unpending none = none
unpending (some e) = some (record e { pending = false })

-- A dialog that is closed while its request is open leaves the request behind.
abbrev pub left_open : Option Editing → ℕ
left_open none = 0
left_open (some e) = if e.pending then 1 else 0

abbrev pub unless_dialog : TargetsState → TargetsState → TargetsState
unless_dialog s t = if has_dialog s then s else t

unfoldable pub change : Event → TargetsState → TargetsState
change (fetched targets) s = record s { targets = targets }
change press_create s = unless_dialog s (record s { create_open = true })
change dismiss_create s = record s { create_open = false }
change (set_name v) s = if s.create_open then record s { name = v } else s
change (set_address v) s = if s.create_open then record s { address = v } else s
change (set_edit_name v) s = record s { edit = named v s.edit }
change (press_edit row) s =
    unless_dialog s (record s { edit = picked fresh (get_elem? s.targets row) s.edit })
change dismiss_edit s = record s { edit = none; stray = s.stray + left_open s.edit }
change (press_remove row) s =
    unless_dialog s
      (record s { remove = picked (λ target. target) (get_elem? s.targets row) s.remove })
change dismiss_remove s = record s { remove = none }
change (create_answered true) s = record s {
  create_pending = false;
  name = [];
  address = [];
  create_open = false;
}
change (create_answered false) s = record s { create_pending = false }
change (edit_answered true) s = record s { edit = none }
change (edit_answered false) s = record s { edit = unpending s.edit }
change (stray_answered true) s = record s { stray = s.stray - 1; edit = none }
change (stray_answered false) s = record s { stray = s.stray - 1 }
change (remove_answered true) s = record s { remove_pending = false; remove = none }
change (remove_answered false) s = record s { remove_pending = false }
change (toggle_answered done) s = record s { toggle_pending = false }
change _ s = s

abbrev pub renamed : TargetsState → Option Editing → TargetsState × Option Request
renamed s none = (s, none)
renamed s (some e) =
    if edit_disabled e
    then (s, none)
    else (record s { edit = some (record e { pending = true }) }, some (rename e.target.id e.name))

abbrev pub removed : TargetsState → Option MonitoringTarget → TargetsState × Option Request
removed s none = (s, none)
removed s (some target) =
    if s.remove_pending
    then (s, none)
    else (record s { remove_pending = true }, some (delete target.id))

abbrev pub toggled : TargetsState → Bool → Option MonitoringTarget → TargetsState × Option Request
toggled s enabled none = (s, none)
toggled s enabled (some target) =
    if has_dialog s || s.toggle_pending
    then (s, none)
    else (record s { toggle_pending = true }, some (toggle target.id enabled))

unfoldable pub handle : Event → TargetsState → TargetsState × Option Request
unfolding change create_disabled edit_disabled
handle submit_create s =
    if not s.create_open || create_disabled s.name s.address s.create_pending
    then (s, none)
    else (record s { create_pending = true }, some (create s.name s.address))
handle submit_edit s = renamed s s.edit
handle confirm_remove s = removed s s.remove
handle (press_toggle row enabled) s = toggled s enabled (get_elem? s.targets row)
handle e s = (change e s, none)
