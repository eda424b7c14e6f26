-- ===== src/Restore/Tests.antt =====
-- A session that deletes one of two snapshots, and the theorems about it.
use cdn_platform.Prelude.{◌≡◌, refl, true, List, [], ◌∷◌, none, some, Text, codes, ◌++◌, ◌===◌}
use cdn_platform.Types.Console.{RestoreSnapshot, RestoreJob}
use cdn_platform.Restore.{
  RestoreState, Event, Request, initial, handle, press, change, answer, confirm,
}
use cdn_platform.Restore.Completion.{quiet, commit_events, cancel_events, run-commit_restore}
use cdn_platform.Restore.Exclusion.{IsExclusive, run, session-IsExclusive}

abbrev snapshot : Text → Text → RestoreSnapshot
snapshot id short = record {
  id = id;
  short_id = short;
  time = [];
  hostname = none;
  paths = none;
  tags = none;
}

abbrev old : RestoreSnapshot
old = snapshot (codes "a11f") (codes "a1")

abbrev new : RestoreSnapshot
new = snapshot (codes "b22e") (codes "b2")

abbrev before : List Event
before =
    Event.snapshots_fetched (old ∷ new ∷ [])
    ∷ Event.press_delete old
    ∷ Event.type_text (codes "a1")
    ∷ []

all_of_it : Unit {0}
unfolding initial handle press change answer confirm
all_of_it = tt

deletes :
    (handle (run initial before) Event.confirm_delete).1
    ≡ some (Request.delete_snapshot (codes "a11f") (codes "a1"))
unfolding all_of_it
deletes = refl

abbrev after : RestoreState
after =
    run (handle (run initial before) Event.confirm_delete).0
      (Event.press_restore new ∷ Event.delete_answered true ∷ Event.press_restore new ∷ [])

ends : (after.snapshots ≡ some (new ∷ [])) × (after.selected ≡ some new)
unfolding all_of_it
ends = (refl, refl)

stays_shut : (handle (run initial (Event.press_delete old ∷ [])) Event.confirm_delete).1 ≡ none
unfolding all_of_it
stays_shut = refl

session-IsExclusive_example : IsExclusive (run initial before)
session-IsExclusive_example = session-IsExclusive before

abbrev ready : RestoreJob
ready = record {
  version = 1;
  id = codes "j";
  snapshot_id = codes "a11f";
  snapshot_short_id = codes "a1";
  state = codes "ready";
  phase = none;
  detail = none;
  error = none;
  schema_version = none;
  created_at = [];
  updated_at = [];
  ready_at = none;
  finished_at = none;
}

-- A dialog is open when the job gets ready.
abbrev during : RestoreState
during = run initial (Event.press_delete old ∷ Event.job_fetched (some ready) ∷ [])

run-commit_restore_example :
    ((handle (run during (quiet ++ commit_events)) Event.confirm_commit).1
      ≡ some (Request.commit_restore (codes "j") (codes "RESTORE")))
    × ((handle (run during (quiet ++ cancel_events)) Event.confirm_cancel).1
        ≡ some (Request.cancel_restore (codes "j")))
unfolding initial handle press change answer confirm ◌===◌
run-commit_restore_example = run-commit_restore during ready refl refl
