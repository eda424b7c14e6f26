-- ===== src/Settings/Backup.antt =====
-- The form of the backup repository (frontend/src/features/settings/settings-page.tsx, `BackupForm`).
pub mod Session
mod Tests
use cdn_platform.Prelude.{
  ℕ, Bool, true, false, not, ◌&&◌, ◌||◌, Option, none, some, Text, codes, ◌or_text◌, is_truthy,
  if◌then◌else◌, ◌===◌, length, leb, [],
}
use cdn_platform.Types.Settings.{BackupSettings}
use cdn_platform.Settings.Pending.{
  Action, Pending, Answer, save, test, reset, done, failed, idle, busy, mark,
}
use cdn_platform.Settings.Smtp.{if_typed}

pub record BackupForm : Type 0 where
  pub settings : BackupSettings
  pub repository : Text
  pub access_key : Text
  pub secret_key : Text
  pub region : Text
  pub restic_password : Text
  pub backup_time : Text
  pub delay : ℕ
  pub pending : Pending

unfoldable pub backup_form : BackupSettings → BackupForm
backup_form settings = record {
  settings = settings;
  repository = settings.repository;
  access_key = settings.access_key_id;
  secret_key = [];
  region = settings.region or_text codes "us-east-1";
  restic_password = [];
  backup_time = settings.backup_time or_text codes "03:25";
  delay = settings.random_delay_seconds;
  pending = idle;
}

pub record BackupPayload : Type 0 where
  pub repository : Text
  pub access_key_id : Text
  pub region : Text
  pub backup_time : Text
  pub random_delay_seconds : ℕ
  pub secret_access_key : Option Text
  pub restic_password : Option Text

unfoldable pub backup_payload : BackupForm → BackupPayload
backup_payload f = record {
  repository = f.repository;
  access_key_id = f.access_key;
  region = f.region;
  backup_time = f.backup_time;
  random_delay_seconds = f.delay;
  secret_access_key = if_typed f.secret_key;
  restic_password = if_typed f.restic_password;
}

pub data BackupEdit : Type 0 where
  set_repository set_access_key set_secret_key : Text → BackupEdit
  set_region set_restic_password set_backup_time : Text → BackupEdit
  set_delay : ℕ → BackupEdit

unfoldable pub edit_backup : BackupEdit → BackupForm → BackupForm
edit_backup (set_repository v) f = record f { repository = v }
edit_backup (set_access_key v) f = record f { access_key = v }
edit_backup (set_secret_key v) f = record f { secret_key = v }
edit_backup (set_region v) f = record f { region = v }
edit_backup (set_restic_password v) f = record f { restic_password = v }
edit_backup (set_backup_time v) f = record f { backup_time = v }
edit_backup (set_delay n) f = record f { delay = n }

pub data BackupRequest : Type 0 where
  put_backup test_backup : (body : BackupPayload) → BackupRequest
  delete_backup : BackupRequest

-- The fields that the browser requires before it submits; a secret only where none is stored. The
-- length is limited while typing.
unfoldable pub is_complete : BackupForm → Bool
is_complete f =
    (is_truthy f.repository && (is_truthy f.access_key && is_truthy f.region))
    && (is_truthy f.backup_time
        && ((f.settings.secret_access_key_configured || is_truthy f.secret_key)
            && (f.settings.restic_password_configured || is_truthy f.restic_password)))

unfoldable pub backup_disabled : Action → BackupForm → Bool
unfolding busy
backup_disabled save f = busy f.pending
backup_disabled test f = busy f.pending
backup_disabled reset f = busy f.pending || not f.settings.override_configured

unfoldable pub press_backup : Action → BackupForm → BackupForm × Option BackupRequest
unfolding backup_disabled is_complete backup_payload mark
press_backup save f =
    if backup_disabled save f || not (is_complete f)
    then (f, none)
    else (record f { pending = mark save true f.pending }, some (put_backup (backup_payload f)))
press_backup test f =
    if backup_disabled test f
    then (f, none)
    else (record f { pending = mark test true f.pending }, some (test_backup (backup_payload f)))
press_backup reset f =
    if backup_disabled reset f
    then (f, none)
    else (record f { pending = mark reset true f.pending }, some delete_backup)

abbrev emptied : BackupForm → BackupForm
emptied f = record f { secret_key = []; restic_password = [] }

unfoldable pub backup_answered : Action → Answer → BackupForm → BackupForm
unfolding mark
backup_answered save done f = emptied (record f { pending = mark save false f.pending })
backup_answered reset done f = emptied (record f { pending = mark reset false f.pending })
backup_answered a r f = record f { pending = mark a false f.pending }
