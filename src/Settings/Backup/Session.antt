-- ===== src/Settings/Backup/Session.antt =====
-- The form of the backup repository from its mounting on
-- (frontend/src/features/settings/settings-page.tsx, `BackupForm`).
use cdn_platform.Prelude.{
  ◌≡◌, true, false, not, ◌||◌, Option, none, some, Bool-cases, inl, inr, arith,
}
use cdn_platform.Types.Settings.{BackupSettings}
use cdn_platform.Settings.Pending.{
  Action, Answer, save, test, reset, done, failed, busy, mark, IsSingle, mark-IsSingle,
  mark_off-IsSingle,
}
use cdn_platform.Settings.Backup.{
  BackupForm, BackupRequest, BackupEdit, backup_form, edit_backup, press_backup, backup_answered,
  backup_disabled, is_complete, backup_payload, put_backup, test_backup, delete_backup,
  set_repository, set_access_key, set_secret_key, set_region, set_restic_password, set_backup_time,
  set_delay,
}

pub data BackupSession : BackupForm → Type 0 where
  mounted : (s : BackupSettings) → BackupSession (backup_form s)
  edited : (e : BackupEdit) {f : BackupForm} → BackupSession f → BackupSession (edit_backup e f)
  pressed : (a : Action) {f : BackupForm} → BackupSession f → BackupSession (press_backup a f).0
  ended :
      (a : Action) (r : Answer) {f : BackupForm}
      → BackupSession f
      → BackupSession (backup_answered a r f)

edit_backup-IsSingle :
    (e : BackupEdit) (f : BackupForm) → IsSingle f.pending → IsSingle (edit_backup e f).pending
unfolding edit_backup
edit_backup-IsSingle (set_repository v) f h = h
edit_backup-IsSingle (set_access_key v) f h = h
edit_backup-IsSingle (set_secret_key v) f h = h
edit_backup-IsSingle (set_region v) f h = h
edit_backup-IsSingle (set_restic_password v) f h = h
edit_backup-IsSingle (set_backup_time v) f h = h
edit_backup-IsSingle (set_delay n) f h = h

-- A press is refused, or marks one request where none was open and sends it.
pub data IsPress (f : BackupForm) : Action → BackupForm × Option BackupRequest → Type 0 where
  refused : (a : Action) → IsPress f a (f, none)
  saves :
      is_complete f ≡ true
      → busy f.pending ≡ false
      → IsPress f save
          (record f { pending = mark save true f.pending }, some (put_backup (backup_payload f)))
  tests :
      busy f.pending ≡ false
      → IsPress f test
          (record f { pending = mark test true f.pending }, some (test_backup (backup_payload f)))
  resets :
      f.settings.override_configured ≡ true
      → busy f.pending ≡ false
      → IsPress f reset (record f { pending = mark reset true f.pending }, some delete_backup)

pub press_backup-IsPress : (a : Action) (f : BackupForm) → IsPress f a (press_backup a f)
unfolding press_backup backup_disabled
press_backup-IsPress save f = elim (Bool-cases (busy f.pending || not (is_complete f))) [
  | inl e ↦ rw (press_backup, e) (refused save)
  | inr e ↦ rw (press_backup, e) (saves (ground arith) (ground arith))
]
press_backup-IsPress test f = elim (Bool-cases (busy f.pending)) [
  | inl e ↦ rw (press_backup, e) (refused test)
  | inr e ↦ rw (press_backup, e) (tests e)
]
press_backup-IsPress reset f =
    elim (Bool-cases (busy f.pending || not f.settings.override_configured)) [
      | inl e ↦ rw (press_backup, e) (refused reset)
      | inr e ↦ rw (press_backup, e) (resets (ground arith) (ground arith))
    ]

IsPress-IsSingle :
    (a : Action) (f : BackupForm) (p : BackupForm × Option BackupRequest)
    → IsPress f a p
    → IsSingle f.pending
    → IsSingle p.0.pending
IsPress-IsSingle a f p (refused b) h = h
IsPress-IsSingle a f p (saves c e) h = mark-IsSingle save f.pending e
IsPress-IsSingle a f p (tests e) h = mark-IsSingle test f.pending e
IsPress-IsSingle a f p (resets o e) h = mark-IsSingle reset f.pending e

backup_answered-IsSingle :
    (a : Action) (r : Answer) (f : BackupForm)
    → IsSingle f.pending
    → IsSingle (backup_answered a r f).pending
unfolding backup_answered
backup_answered-IsSingle save done f h = mark_off-IsSingle save f.pending h
backup_answered-IsSingle reset done f h = mark_off-IsSingle reset f.pending h
backup_answered-IsSingle test done f h = mark_off-IsSingle test f.pending h
backup_answered-IsSingle save (failed n m) f h = mark_off-IsSingle save f.pending h
backup_answered-IsSingle test (failed n m) f h = mark_off-IsSingle test f.pending h
backup_answered-IsSingle reset (failed n m) f h = mark_off-IsSingle reset f.pending h

-- Whatever is edited, pressed and answered, at most one request of the form is open.
pub BackupSession-IsSingle : {f : BackupForm} → BackupSession f → IsSingle f.pending
unfolding backup_form
BackupSession-IsSingle (mounted s) = omega arith
BackupSession-IsSingle (edited e s) = edit_backup-IsSingle e _ (BackupSession-IsSingle s)
BackupSession-IsSingle (pressed a {f} s) =
    IsPress-IsSingle a f _ (press_backup-IsPress a f) (BackupSession-IsSingle s)
BackupSession-IsSingle (ended a r s) = backup_answered-IsSingle a r _ (BackupSession-IsSingle s)
