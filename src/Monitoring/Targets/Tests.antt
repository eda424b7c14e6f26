-- ===== src/Monitoring/Targets/Tests.antt =====
-- A page with two targets, and the theorem about what it sends.
use cdn_platform.Prelude.{
  ◌≡◌, ◌≤◌, refl, true, false, List, [], ◌∷◌, none, some, Text, codes, ◌===◌, trim,
}
use cdn_platform.Types.Monitoring.{MonitoringTarget}
use cdn_platform.Monitoring.Targets.{
  TargetsState, Event, initial, handle, press_edit, dismiss_edit, set_edit_name, submit_edit,
  stray_answered, rename,
}
use cdn_platform.Monitoring.Targets.Exclusion.{begin, step, open_dialogs}
use cdn_platform.Monitoring.Targets.Sent.{Permits, handle-Permits}

abbrev target_named : Text → MonitoringTarget
target_named name = record {
  id = name;
  name = name;
  address = codes "192.0.2.1:443";
  enabled = true;
  created_at = [];
  updated_at = [];
}

abbrev page : TargetsState
page = initial (target_named (codes "a") ∷ target_named (codes "b") ∷ [])

abbrev after : List Event → TargetsState → TargetsState
after [] s = s
after (e ∷ es) s = after es (handle e s).0

abbrev typed : TargetsState
typed = after (press_edit 0 ∷ set_edit_name (codes "c") ∷ []) page

-- The answer to the first renaming closes the dialog of the second.
strays :
    ((after (submit_edit ∷ dismiss_edit ∷ press_edit 1 ∷ []) typed).edit
      ≡ some (record { target = target_named (codes "b"); name = codes "b"; pending = false }))
    × ((after (submit_edit ∷ dismiss_edit ∷ press_edit 1 ∷ stray_answered true ∷ []) typed).edit
        ≡ none)
unfolding handle initial trim ◌===◌
strays = (refl, refl)

handle-Permits_example : Permits typed (rename (codes "a") (codes "c")) × (open_dialogs typed ≤ 1)
unfolding handle initial trim ◌===◌
handle-Permits_example =
    handle-Permits submit_edit (rename (codes "a") (codes "c"))
      (step (set_edit_name (codes "c")) (step (press_edit 0) (begin _))) refl
