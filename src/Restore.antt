-- ===== src/Restore.antt =====
-- Backups and the online restore (frontend/src/features/settings/backup-restore.tsx): its four
-- dialogs, its four requests and the cached answers they change.
pub mod Requests
pub mod Exclusion
pub mod Completion
mod Tests
use cdn_platform.Prelude.{
  Bool, true, false, not, ◌&&◌, ◌||◌, List, [], ◌∷◌, filter, any, Option, none, some, Text, codes,
  ◌===◌, is_some, includes, if◌then◌else◌,
}
use cdn_platform.Types.Console.{RestoreSnapshot, RestoreJob}
use cdn_platform.Confirm.{confirm_disabled}

-- `activeRestore`
unfoldable pub active_restore : Option Text → Bool
unfolding includes
active_restore none = false
active_restore (some state) =
    includes
      (codes "queued"
        ∷ codes "downloading"
        ∷ codes "validating"
        ∷ codes "ready"
        ∷ codes "committing"
        ∷ [])
      state

-- The component's state, the mutations in flight and the query data. `typed` is the input of the
-- dialog that is open: a dialog empties its own when it closes.
pub record RestoreState : Type 0 where
  pub selected : Option RestoreSnapshot
  pub deleting : Option RestoreSnapshot
  pub commit_open : Bool
  pub cancel_open : Bool
  pub typed : Text
  pub start_pending : Bool
  pub commit_pending : Bool
  pub cancel_pending : Bool
  pub delete_pending : Option RestoreSnapshot
  pub snapshots : Option (List RestoreSnapshot)
  pub job : Option RestoreJob

unfoldable pub initial : RestoreState
initial = record {
  selected = none;
  deleting = none;
  commit_open = false;
  cancel_open = false;
  typed = [];
  start_pending = false;
  commit_pending = false;
  cancel_pending = false;
  delete_pending = none;
  snapshots = none;
  job = none;
}

abbrev pub busy : RestoreState → Bool
busy s = s.start_pending || (s.commit_pending || (s.cancel_pending || is_some s.delete_pending))

-- While a dialog is open, what is behind it cannot be pressed.
abbrev pub has_dialog : RestoreState → Bool
has_dialog s = is_some s.selected || (is_some s.deleting || (s.commit_open || s.cancel_open))

abbrev job_state : Option RestoreJob → Option Text
job_state none = none
job_state (some job) = some job.state

abbrev job_id : Option RestoreJob → Text
job_id none = []
job_id (some job) = job.id

abbrev state_is : Text → Option RestoreJob → Bool
state_is state none = false
state_is state (some job) = job.state === state

-- `disabled` of the two buttons of a snapshot's row.
unfoldable pub row_disabled : RestoreState → Bool
unfolding active_restore
row_disabled s = busy s || active_restore (job_state s.job)

-- `RestoreJobPanel`: whether its buttons are there and can be pressed.
unfoldable pub can_commit : RestoreState → Bool
unfolding ◌===◌
can_commit s = state_is (codes "ready") s.job && not (busy s)

unfoldable pub can_cancel : RestoreState → Bool
unfolding active_restore ◌===◌
can_cancel s =
    active_restore (job_state s.job) && (not (state_is (codes "committing") s.job) && not (busy s))

pub data Event : Type 0 where
  press_restore press_delete : RestoreSnapshot → Event
  press_commit press_cancel : Event
  type_text : Text → Event
  dismiss : Event
  confirm_restore confirm_delete confirm_commit confirm_cancel : Event
  start_answered commit_answered cancel_answered : Option RestoreJob → Event
  delete_answered : Bool → Event
  snapshots_fetched : List RestoreSnapshot → Event
  job_fetched : Option RestoreJob → Event

-- The requests, with the confirmation that is sent.
pub data Request : Type 0 where
  start_restore delete_snapshot : (id confirmation : Text) → Request
  commit_restore : (id confirmation : Text) → Request
  cancel_restore : (id : Text) → Request

abbrev without : RestoreSnapshot → Option (List RestoreSnapshot) → Option (List RestoreSnapshot)
without snapshot none = none
without snapshot (some current) = some (filter (λ item. not (item.id === snapshot.id)) current)

abbrev unless_deleted : RestoreSnapshot → Option RestoreSnapshot → Option RestoreSnapshot
unless_deleted snapshot none = none
unless_deleted snapshot (some chosen) = if chosen.id === snapshot.id then none else some chosen

-- `onSuccess` of the deletion.
abbrev pub deleted : RestoreState → Option RestoreSnapshot → RestoreState
deleted s none = s
deleted s (some snapshot) = record s {
  delete_pending = none;
  snapshots = without snapshot s.snapshots;
  deleting = none;
  typed = [];
  selected = unless_deleted snapshot s.selected;
}

-- `onSuccess` and the end of each mutation; a mutation that fails leaves its dialog open.
unfoldable pub answer : RestoreState → Event → RestoreState
unfolding ◌===◌
answer s (start_answered (some next)) = record s {
  start_pending = false;
  job = some next;
  selected = none;
  typed = [];
}
answer s (start_answered none) = record s { start_pending = false }
answer s (commit_answered (some next)) = record s {
  commit_pending = false;
  job = some next;
  commit_open = false;
  typed = [];
}
answer s (commit_answered none) = record s { commit_pending = false }
answer s (cancel_answered (some next)) = record s {
  cancel_pending = false;
  job = some next;
  cancel_open = false;
  typed = [];
}
answer s (cancel_answered none) = record s { cancel_pending = false }
answer s (delete_answered true) = deleted s s.delete_pending
answer s (delete_answered false) = record s { delete_pending = none }
answer s _ = s

-- `onConfirm` of the two dialogs about a snapshot.
abbrev pub confirm_start : RestoreState → Option RestoreSnapshot → RestoreState × Option Request
confirm_start s none = (s, none)
confirm_start s (some x) =
    if confirm_disabled (some x.short_id) s.typed s.start_pending
    then (s, none)
    else (record s { start_pending = true }, some (start_restore x.id x.short_id))

abbrev pub confirm_deletion : RestoreState → Option RestoreSnapshot → RestoreState × Option Request
confirm_deletion s none = (s, none)
confirm_deletion s (some x) =
    if confirm_disabled (some x.short_id) s.typed (is_some s.delete_pending)
    then (s, none)
    else (record s { delete_pending = some x }, some (delete_snapshot x.id x.short_id))

-- The dialogs' buttons: `onConfirm`, if the button can be pressed, sends the request.
unfoldable pub confirm : RestoreState → Event → RestoreState × Option Request
unfolding confirm_disabled
confirm s confirm_restore = confirm_start s s.selected
confirm s confirm_delete = confirm_deletion s s.deleting
confirm s confirm_commit =
    if not s.commit_open || confirm_disabled (some (codes "RESTORE")) s.typed s.commit_pending
    then (s, none)
    else (
      record s { commit_pending = true },
      some (commit_restore (job_id s.job) (codes "RESTORE")),
    )
confirm s confirm_cancel =
    if not s.cancel_open || confirm_disabled none s.typed s.cancel_pending
    then (s, none)
    else (record s { cancel_pending = true }, some (cancel_restore (job_id s.job)))
confirm s _ = (s, none)

-- The buttons that open a dialog. A button that is not there, or is disabled, does nothing.
unfoldable pub press : RestoreState → Event → RestoreState
unfolding row_disabled can_commit can_cancel
press s (press_restore x) =
    if has_dialog s || row_disabled s then s else record s { selected = some x }
press s (press_delete x) =
    if has_dialog s || row_disabled s then s else record s { deleting = some x }
press s press_commit =
    if not (has_dialog s) && can_commit s then record s { commit_open = true } else s
press s press_cancel =
    if not (has_dialog s) && can_cancel s then record s { cancel_open = true } else s
press s _ = s

-- What the user types into the open dialog, a dialog that is closed, and data that arrive.
unfoldable pub change : RestoreState → Event → RestoreState
change s (type_text v) = if has_dialog s then record s { typed = v } else s
change s dismiss = record s {
  selected = none;
  deleting = none;
  commit_open = false;
  cancel_open = false;
  typed = [];
}
change s (snapshots_fetched xs) = record s { snapshots = some xs }
change s (job_fetched j) = record s { job = j }
change s _ = s

-- One event: each clause of the four functions is about other events, so at most one of them acts.
unfoldable pub handle : RestoreState → Event → RestoreState × Option Request
unfolding press change answer confirm
handle s e = let (t, request) = confirm s e in (answer (change (press t e) e) e, request)
