-- ===== src/Settings/Smtp.antt =====
-- The form of the mail settings (frontend/src/features/settings/settings-page.tsx, `SMTPForm`).
pub mod Categories
pub mod Payload
pub mod Session
mod Tests
use cdn_platform.Prelude.{
  ℕ, Bool, true, false, not, ◌&&◌, ◌||◌, List, [], ◌∷◌, ◌++◌, map, filter, all, Option, none, some,
  Text, codes, ◌===◌, ◌or_text◌, ◌==◌, leb, includes, is_truthy, join, trim, split_on, decimal,
  if◌then◌else◌,
}
use cdn_platform.Types.Settings.{SmtpSettings}
use cdn_platform.Settings.Pending.{
  Action, Pending, Answer, save, test, reset, done, failed, idle, busy, mark,
}

pub record SmtpForm : Type 0 where
  pub settings : SmtpSettings
  pub enabled : Bool
  pub host : Text
  pub port : ℕ
  pub security : Text
  pub username : Text
  pub password : Text
  pub from : Text
  pub recipients : Text
  pub notification_categories : List Text
  pub test_error : Text
  pub pending : Pending

-- `initial.port || 587`
abbrev port_or : ℕ → ℕ → ℕ
port_or port other = if port == 0 then other else port

-- The form when it is mounted.
unfoldable pub smtp_form : SmtpSettings → SmtpForm
unfolding join
smtp_form settings = record {
  settings = settings;
  enabled = settings.enabled;
  host = settings.host;
  port = port_or settings.port 587;
  security = settings.security or_text codes "starttls";
  username = settings.username;
  password = [];
  from = settings.from_address;
  recipients = join (codes ", ") settings.recipients;
  notification_categories = settings.notification_categories;
  test_error = [];
  pending = idle;
}

-- The key of the form: settings with another key mount it anew.
unfoldable pub smtp_key : SmtpSettings → Text
unfolding decimal join
smtp_key s =
    codes "smtp-"
    ++ (s.source
        ++ (codes "-"
            ++ (s.host
                ++ (codes "-"
                    ++ (decimal s.port
                        ++ (codes "-" ++ join (codes ",") s.notification_categories))))))

-- `split`
unfoldable pub split : Text → List Text
unfolding split_on trim
split value = filter is_truthy (map trim (split_on (λ c. c == 44) value))

-- The body of a request; without a password it has none.
pub record SmtpPayload : Type 0 where
  pub enabled : Bool
  pub host : Text
  pub port : ℕ
  pub security : Text
  pub username : Text
  pub from_address : Text
  pub recipients : List Text
  pub notification_categories : List Text
  pub password : Option Text

-- `...(text ? { text } : {})`
abbrev pub if_typed : Text → Option Text
if_typed [] = none
if_typed (c ∷ s) = some (c ∷ s)

unfoldable pub smtp_payload : SmtpForm → SmtpPayload
unfolding split
smtp_payload f = record {
  enabled = f.enabled;
  host = f.host;
  port = f.port;
  security = f.security;
  username = f.username;
  from_address = f.from;
  recipients = split f.recipients;
  notification_categories = f.notification_categories;
  password = if_typed f.password;
}

-- `setNotificationCategory`: `[...new Set([...current, category])]` keeps the first of equal texts.
unfoldable pub unique : List Text → List Text → List Text
unfolding includes
unique seen [] = []
unique seen (x ∷ xs) =
    let rest = unique (x ∷ seen) xs in
    let later = unique seen xs in if includes seen x then later else x ∷ rest

unfoldable pub set_notification_category : Text → Bool → List Text → List Text
unfolding unique ◌===◌
set_notification_category category checked current =
    if checked
    then unique [] (current ++ category ∷ [])
    else filter (λ candidate. not (candidate === category)) current

-- What the user changes.
pub data Edit : Type 0 where
  set_enabled : Bool → Edit
  set_host set_security set_username set_password set_from set_recipients : Text → Edit
  set_port : ℕ → Edit
  set_category : Text → Bool → Edit

unfoldable pub edit : Edit → SmtpForm → SmtpForm
unfolding set_notification_category
edit (set_enabled b) f = record f { enabled = b }
edit (set_host v) f = record f { host = v }
edit (set_security v) f = record f { security = v }
edit (set_username v) f = record f { username = v }
edit (set_password v) f = record f { password = v }
edit (set_from v) f = record f { from = v }
edit (set_recipients v) f = record f { recipients = v }
edit (set_port n) f = record f { port = n }
edit (set_category category checked) f = record f {
  notification_categories = set_notification_category category checked f.notification_categories;
}

pub data SmtpRequest : Type 0 where
  put_smtp post_test : (body : SmtpPayload) → SmtpRequest
  delete_smtp : SmtpRequest

-- What the browser asks of the fields before it submits: `is_email` is its test of an address.
unfoldable pub is_valid : (Text → Bool) → SmtpForm → Bool
is_valid is_email f =
    (not f.enabled || (is_truthy f.host && (is_truthy f.from && is_truthy f.recipients)))
    && ((leb 1 f.port && leb f.port 65535) && (not (is_truthy f.from) || is_email f.from))

unfoldable pub disabled : Action → SmtpForm → Bool
unfolding busy
disabled save f = busy f.pending
disabled test f = busy f.pending || not f.enabled
disabled reset f = busy f.pending || not f.settings.override_configured

-- A press on one of the three buttons.
unfoldable pub press : (Text → Bool) → Action → SmtpForm → SmtpForm × Option SmtpRequest
unfolding disabled is_valid smtp_payload mark
press is_email save f =
    if disabled save f || not (is_valid is_email f)
    then (f, none)
    else (record f { pending = mark save true f.pending }, some (put_smtp (smtp_payload f)))
press is_email test f = if disabled test f then (f, none) else (
  record f { pending = mark test true f.pending; test_error = [] },
  some (post_test (smtp_payload f)),
)
press is_email reset f =
    if disabled reset f
    then (f, none)
    else (record f { pending = mark reset true f.pending }, some delete_smtp)

unfoldable pub smtp_test_error_message : ℕ → Text → Text
smtp_test_error_message status message =
    if status == 504 then codes "SMTP 连接超时，请检查服务器、端口、安全连接方式及网络连通性。" else message

-- The end of a request.
unfoldable pub answered : Action → Answer → SmtpForm → SmtpForm
unfolding mark smtp_test_error_message
answered save done f = record f { pending = mark save false f.pending; password = [] }
answered reset done f = record f { pending = mark reset false f.pending; password = [] }
answered test done f = record f { pending = mark test false f.pending; test_error = [] }
answered test (failed status message) f = record f {
  pending = mark test false f.pending;
  test_error = smtp_test_error_message status message;
}
answered save (failed status message) f = record f { pending = mark save false f.pending }
answered reset (failed status message) f = record f { pending = mark reset false f.pending }
