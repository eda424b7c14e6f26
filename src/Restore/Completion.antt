-- ===== src/Restore/Completion.antt =====
-- A restore that is ready can always be finished (frontend/src/features/settings/backup-restore.tsx).
use cdn_platform.Prelude.{
  ◌≡◌, refl, ap, ◌∙◌, true, false, List, [], ◌∷◌, ◌++◌, Option, none, some, codes, ◌===◌, eq_of_===,
  includes,
}
use cdn_platform.Types.Console.{RestoreSnapshot, RestoreJob}
use cdn_platform.Confirm.{confirm_disabled, allowed}
use cdn_platform.Restore.{
  RestoreState, Event, handle, press, change, answer, confirm, can_commit, can_cancel,
  active_restore, dismiss, start_answered, commit_answered, cancel_answered, delete_answered,
  press_commit, press_cancel, type_text, confirm_commit, confirm_cancel, commit_restore,
  cancel_restore,
}
use cdn_platform.Restore.Exclusion.{run}

-- The dialogs are closed, and the requests that are open end with an error.
abbrev pub quiet : List Event
quiet =
    dismiss
    ∷ start_answered none
    ∷ commit_answered none
    ∷ cancel_answered none
    ∷ delete_answered false
    ∷ []

abbrev cleared : Option (List RestoreSnapshot) → Option RestoreJob → RestoreState
cleared snapshots job = record {
  selected = none;
  deleting = none;
  commit_open = false;
  cancel_open = false;
  typed = [];
  start_pending = false;
  commit_pending = false;
  cancel_pending = false;
  delete_pending = none;
  snapshots = snapshots;
  job = job;
}

run-quiet : (s : RestoreState) → run s quiet ≡ cleared s.snapshots s.job
unfolding handle press change answer confirm
run-quiet s = refl

run-append : (s : RestoreState) (es ds : List Event) → run s (es ++ ds) ≡ run (run s es) ds
run-append s [] ds = refl
run-append s (e ∷ es) ds = run-append (handle s e).0 es ds

-- The operator opens the dialog, types what it asks for, and confirms.
abbrev pub commit_events : List Event
commit_events = press_commit ∷ type_text (codes "RESTORE") ∷ []

abbrev pub cancel_events : List Event
cancel_events = press_cancel ∷ []

ready_commit :
    (snapshots : Option (List RestoreSnapshot)) (job : RestoreJob)
    → job.state ≡ codes "ready"
    → (handle (run (cleared snapshots (some job)) commit_events) confirm_commit).1
      ≡ some (commit_restore job.id (codes "RESTORE"))
unfolding handle press change answer confirm can_commit can_cancel active_restore includes
    confirm_disabled allowed ◌===◌
ready_commit snapshots job h = rw h refl

ready_cancel :
    (snapshots : Option (List RestoreSnapshot)) (job : RestoreJob)
    → job.state ≡ codes "ready"
    → (handle (run (cleared snapshots (some job)) cancel_events) confirm_cancel).1
      ≡ some (cancel_restore job.id)
unfolding handle press change answer confirm can_commit can_cancel active_restore includes
    confirm_disabled allowed ◌===◌
ready_cancel snapshots job h = rw h refl

-- Whatever dialogs and requests are open, a job that is ready can be committed and can be cancelled:
-- once the open requests have ended, if only with errors, the buttons and the dialog's text lead to
-- the request for that job.
pub run-commit_restore :
    (s : RestoreState) (job : RestoreJob)
    → s.job ≡ some job
    → (job.state === codes "ready") ≡ true
    → ((handle (run s (quiet ++ commit_events)) confirm_commit).1
        ≡ some (commit_restore job.id (codes "RESTORE")))
      × ((handle (run s (quiet ++ cancel_events)) confirm_cancel).1 ≡ some (cancel_restore job.id))
run-commit_restore s job there ready =
    let state : job.state ≡ codes "ready" = eq_of_=== job.state (codes "ready") ready in
    let start : run s quiet ≡ cleared s.snapshots (some job) =
      run-quiet s ∙ ap (cleared s.snapshots) there in
    (
      ap (λ t. (handle t confirm_commit).1)
            (run-append s quiet commit_events ∙ ap (λ t. run t commit_events) start)
          ∙ ready_commit s.snapshots job state,
      ap (λ t. (handle t confirm_cancel).1)
            (run-append s quiet cancel_events ∙ ap (λ t. run t cancel_events) start)
          ∙ ready_cancel s.snapshots job state,
    )
