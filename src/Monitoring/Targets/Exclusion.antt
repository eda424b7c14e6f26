-- ===== src/Monitoring/Targets/Exclusion.antt =====
-- The dialogs of the targets, one at a time (frontend/src/features/monitoring/monitoring-page.tsx).
use cdn_platform.Prelude.{
  ℕ, ◌+◌, ◌≤◌, ◌≡◌, refl, Bool, true, false, List, Text, Option, none, some, is_some, get_elem?,
  Bool-cases, inl, inr, arith, if◌then◌else◌, not, ◌||◌,
}
use cdn_platform.Types.Monitoring.{MonitoringTarget}
use cdn_platform.Monitoring.{create_disabled}
use cdn_platform.Monitoring.Targets.{
  TargetsState, Editing, Event, initial, handle, change, has_dialog, unless_dialog, named,
  unpending, renamed, removed, toggled, edit_disabled, submit_create, submit_edit, confirm_remove,
  press_toggle, fetched, press_create, dismiss_create, set_name, set_address, set_edit_name,
  dismiss_edit, dismiss_remove, press_edit, press_remove, create_answered, edit_answered,
  stray_answered, remove_answered, toggle_answered,
}

abbrev one : Bool → ℕ
one b = if b then 1 else 0

abbrev pub open_dialogs : TargetsState → ℕ
open_dialogs s = one s.create_open + (one (is_some s.edit) + one (is_some s.remove))

-- The states of the page from a first list on.
pub data Session : TargetsState → Type 0 where
  begin : (targets : List MonitoringTarget) → Session (initial targets)
  step : (e : Event) {s : TargetsState} → Session s → Session (handle e s).0

is_some-named : (v : Text) (e : Option Editing) → is_some (named v e) ≡ is_some e
is_some-named v none = refl
is_some-named v (some e) = refl

is_some-unpending : (e : Option Editing) → is_some (unpending e) ≡ is_some e
is_some-unpending none = refl
is_some-unpending (some e) = refl

guarded :
    (s t : TargetsState)
    → open_dialogs s ≤ 1
    → (has_dialog s ≡ false → open_dialogs t ≤ 1)
    → open_dialogs (unless_dialog s t) ≤ 1
guarded s t h fits = elim (Bool-cases (has_dialog s)) [ inl e ↦ rw e h | inr e ↦ rw e (fits e) ]

change-open_dialogs :
    (e : Event) (s : TargetsState) → open_dialogs s ≤ 1 → open_dialogs (change e s) ≤ 1
unfolding change
change-open_dialogs (fetched targets) s h = h
change-open_dialogs press_create s h = guarded s _ h (λ e. ground arith)
change-open_dialogs dismiss_create s h = ground arith
change-open_dialogs (set_name v) s h = ground arith
change-open_dialogs (set_address v) s h = ground arith
change-open_dialogs (set_edit_name v) s h = rw (is_some-named v s.edit) h
change-open_dialogs (press_edit row) s h = guarded s _ h (λ e. ground arith)
change-open_dialogs dismiss_edit s h = ground arith
change-open_dialogs (press_remove row) s h = guarded s _ h (λ e. ground arith)
change-open_dialogs dismiss_remove s h = ground arith
change-open_dialogs (create_answered true) s h = ground arith
change-open_dialogs (create_answered false) s h = h
change-open_dialogs (edit_answered true) s h = ground arith
change-open_dialogs (edit_answered false) s h = rw (is_some-unpending s.edit) h
change-open_dialogs (stray_answered true) s h = ground arith
change-open_dialogs (stray_answered false) s h = h
change-open_dialogs (remove_answered true) s h = ground arith
change-open_dialogs (remove_answered false) s h = h
change-open_dialogs (toggle_answered done) s h = h
change-open_dialogs submit_create s h = h
change-open_dialogs submit_edit s h = h
change-open_dialogs confirm_remove s h = h
change-open_dialogs (press_toggle row enabled) s h = h

renamed-open_dialogs :
    (s : TargetsState) (e : Option Editing)
    → s.edit ≡ e
    → open_dialogs s ≤ 1
    → open_dialogs (renamed s e).0 ≤ 1
renamed-open_dialogs s none same h = h
renamed-open_dialogs s (some e) same h = elim (Bool-cases (edit_disabled e)) [
  | inl shut ↦ rw shut h
  | inr free ↦ rw free (rw same at h)
]

removed-open_dialogs :
    (s : TargetsState) (target : Option MonitoringTarget)
    → open_dialogs s ≤ 1
    → open_dialogs (removed s target).0 ≤ 1
removed-open_dialogs s none h = h
removed-open_dialogs s (some target) h = elim (Bool-cases s.remove_pending) [
  | inl e ↦ rw e h
  | inr e ↦ rw e h
]

toggled-open_dialogs :
    (s : TargetsState) (enabled : Bool) (target : Option MonitoringTarget)
    → open_dialogs s ≤ 1
    → open_dialogs (toggled s enabled target).0 ≤ 1
toggled-open_dialogs s enabled none h = h
toggled-open_dialogs s enabled (some target) h =
    elim (Bool-cases (has_dialog s || s.toggle_pending)) [ inl e ↦ rw e h | inr e ↦ rw e h ]

created-open_dialogs :
    (s : TargetsState) → open_dialogs s ≤ 1 → open_dialogs (handle submit_create s).0 ≤ 1
unfolding handle
created-open_dialogs s h =
    elim (Bool-cases (not s.create_open || create_disabled s.name s.address s.create_pending)) [
      | inl e ↦ rw e h
      | inr e ↦ rw e h
    ]

handle-open_dialogs :
    (e : Event) (s : TargetsState) → open_dialogs s ≤ 1 → open_dialogs (handle e s).0 ≤ 1
unfolding handle
handle-open_dialogs submit_create s h = created-open_dialogs s h
handle-open_dialogs submit_edit s h = renamed-open_dialogs s s.edit refl h
handle-open_dialogs confirm_remove s h = removed-open_dialogs s s.remove h
handle-open_dialogs (press_toggle row enabled) s h =
    toggled-open_dialogs s enabled (get_elem? s.targets row) h
handle-open_dialogs e s h = change-open_dialogs e s h

-- At most one dialog is open.
pub Session-open_dialogs : {s : TargetsState} → Session s → open_dialogs s ≤ 1
unfolding initial
Session-open_dialogs (begin targets) = omega arith
Session-open_dialogs (step e s) = handle-open_dialogs e _ (Session-open_dialogs s)
