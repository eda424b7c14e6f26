-- ===== src/Settings/Smtp/Tests.antt =====
-- A form with a typed password, and the theorems about it.
use cdn_platform.Prelude.{◌≡◌, refl, Bool, true, false, [], ◌∷◌, Text, codes}
use cdn_platform.Types.Settings.{SmtpSettings}
use cdn_platform.Settings.Pending.{save, test, done, failed}
use cdn_platform.Settings.Smtp.{
  SmtpForm, smtp_form, press, answered, edit, set_password, smtp_test_error_message,
}
use cdn_platform.Settings.Smtp.Session.{
  Session, IsSound, Session-IsSound, mounted, edited, pressed, ended,
}

abbrev mail : SmtpSettings
mail = record {
  enabled = true;
  host = codes "mx";
  port = 25;
  username = [];
  from_address = codes "a@b";
  recipients = codes "c@d" ∷ codes "e f@g" ∷ [];
  notification_categories = codes "backup" ∷ [];
  security = codes "tls";
  source = codes "database";
  override_configured = true;
  password_configured = true;
  environment_configured = false;
}

abbrev any_email : Text → Bool
any_email text = true

timed_out :
    (answered test (failed 504 []) (smtp_form mail)).test_error ≡ smtp_test_error_message 504 []
unfolding answered
timed_out = refl

-- A password is typed and saved.
abbrev saved : SmtpForm
saved =
    answered save done (press any_email save (edit (set_password (codes "x")) (smtp_form mail))).0

saved-Session : Session any_email saved false
saved-Session = ended save done (pressed save (edited (set_password (codes "x")) (mounted mail)))

Session-IsSound_example : IsSound saved false
Session-IsSound_example = Session-IsSound any_email saved-Session
