-- ===== src/Settings/Backup/Tests.antt =====
-- A repository that is saved once.
use cdn_platform.Prelude.{◌≡◌, refl, true, false, [], codes, some}
use cdn_platform.Types.Settings.{BackupSettings}
use cdn_platform.Settings.Pending.{save, busy}
use cdn_platform.Settings.Backup.{
  BackupForm, backup_form, edit_backup, press_backup, set_secret_key, put_backup, backup_payload,
  backup_disabled, is_complete,
}

abbrev repository : BackupSettings
repository = record {
  repository = codes "s3:x";
  access_key_id = codes "k";
  region = [];
  backup_time = [];
  random_delay_seconds = 300;
  source = codes "database";
  configured = true;
  override_configured = true;
  secret_access_key_configured = true;
  restic_password_configured = true;
  environment_configured = false;
}

sent :
    (press_backup save (backup_form repository)).1
    ≡ some (put_backup (backup_payload (backup_form repository)))
unfolding press_backup backup_disabled busy is_complete backup_form
sent = refl

abbrev saving : BackupForm
saving = (press_backup save (edit_backup (set_secret_key (codes "s")) (backup_form repository))).0
