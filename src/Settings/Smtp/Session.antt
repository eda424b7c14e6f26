-- ===== src/Settings/Smtp/Session.antt =====
-- The form from its mounting on (frontend/src/features/settings/settings-page.tsx, `SMTPForm`).
use cdn_platform.Prelude.{
  ◌≡◌, refl, Bool, true, false, not, ◌||◌, [], ◌∷◌, Option, none, Text, Bool-cases, inl, inr, arith,
  if◌then◌else◌, is_truthy,
}
use cdn_platform.Types.Settings.{SmtpSettings}
use cdn_platform.Settings.Pending.{
  Action, Answer, save, test, reset, done, failed, busy, IsSingle, mark-IsSingle, mark_off-IsSingle,
}
use cdn_platform.Settings.Smtp.{
  SmtpForm, SmtpRequest, Edit, smtp_form, edit, press, answered, disabled, is_valid, set_password,
  set_enabled, set_host, set_security, set_username, set_from, set_recipients, set_port,
  set_category, put_smtp, post_test, delete_smtp,
}

-- Whether an edit types a password; a save or a reset that is done ends what was typed.
abbrev pub types_password : Edit → Bool
types_password (set_password v) = is_truthy v
types_password _ = false

abbrev pub ends_typing : Action → Answer → Bool
ends_typing save done = true
ends_typing reset done = true
ends_typing _ _ = false

-- The states of the form, with whether a password was typed since the last end of typing.
pub data Session (is_email : Text → Bool) : SmtpForm → Bool → Type 0 where
  mounted : (s : SmtpSettings) → Session is_email (smtp_form s) false
  edited :
      (e : Edit) {f : SmtpForm} {typed : Bool}
      → Session is_email f typed
      → Session is_email (edit e f) (types_password e || typed)
  pressed :
      (a : Action) {f : SmtpForm} {typed : Bool}
      → Session is_email f typed
      → Session is_email (press is_email a f).0 typed
  ended :
      (a : Action) (r : Answer) {f : SmtpForm} {typed : Bool}
      → Session is_email f typed
      → Session is_email (answered a r f) (if ends_typing a r then false else typed)

pub record IsSound (f : SmtpForm) (typed : Bool) : Type 0 where
  pub single : IsSingle f.pending
  pub secret : typed ≡ false → f.password ≡ []

untyped : (v : Text) → is_truthy v ≡ false → v ≡ []
untyped [] h = refl
untyped (c ∷ v) h = cc

edit-IsSound :
    (e : Edit) (f : SmtpForm) (typed : Bool)
    → IsSound f typed
    → IsSound (edit e f) (types_password e || typed)
unfolding edit
edit-IsSound (set_password v) f typed h = record {
  single = h.single;
  secret = λ e. untyped v (ground arith);
}
edit-IsSound (set_enabled b) f typed h = record { single = h.single; secret = h.secret }
edit-IsSound (set_host v) f typed h = record { single = h.single; secret = h.secret }
edit-IsSound (set_security v) f typed h = record { single = h.single; secret = h.secret }
edit-IsSound (set_username v) f typed h = record { single = h.single; secret = h.secret }
edit-IsSound (set_from v) f typed h = record { single = h.single; secret = h.secret }
edit-IsSound (set_recipients v) f typed h = record { single = h.single; secret = h.secret }
edit-IsSound (set_port n) f typed h = record { single = h.single; secret = h.secret }
edit-IsSound (set_category c b) f typed h = record { single = h.single; secret = h.secret }

-- A press that is not refused marks one request, where none was open.
press-IsSound :
    (is_email : Text → Bool) (a : Action) (f : SmtpForm) (typed : Bool)
    → IsSound f typed
    → IsSound (press is_email a f).0 typed
unfolding press disabled
press-IsSound is_email save f typed h =
    elim (Bool-cases (busy f.pending || not (is_valid is_email f))) [
      | inl e ↦ rw (press, e) h
      | inr e ↦
          rw (press, e)
            (record { single = mark-IsSingle save f.pending (ground arith); secret = h.secret })
    ]
press-IsSound is_email test f typed h = elim (Bool-cases (busy f.pending || not f.enabled)) [
  | inl e ↦ rw (press, e) h
  | inr e ↦
      rw (press, e)
        (record { single = mark-IsSingle test f.pending (ground arith); secret = h.secret })
]
press-IsSound is_email reset f typed h =
    elim (Bool-cases (busy f.pending || not f.settings.override_configured)) [
      | inl e ↦ rw (press, e) h
      | inr e ↦
          rw (press, e)
            (record { single = mark-IsSingle reset f.pending (ground arith); secret = h.secret })
    ]

answered-IsSound :
    (a : Action) (r : Answer) (f : SmtpForm) (typed : Bool)
    → IsSound f typed
    → IsSound (answered a r f) (if ends_typing a r then false else typed)
unfolding answered
answered-IsSound save done f typed h = record {
  single = mark_off-IsSingle save f.pending h.single;
  secret = λ e. refl;
}
answered-IsSound reset done f typed h = record {
  single = mark_off-IsSingle reset f.pending h.single;
  secret = λ e. refl;
}
answered-IsSound test done f typed h = record {
  single = mark_off-IsSingle test f.pending h.single;
  secret = h.secret;
}
answered-IsSound test (failed n m) f typed h = record {
  single = mark_off-IsSingle test f.pending h.single;
  secret = h.secret;
}
answered-IsSound save (failed n m) f typed h = record {
  single = mark_off-IsSingle save f.pending h.single;
  secret = h.secret;
}
answered-IsSound reset (failed n m) f typed h = record {
  single = mark_off-IsSingle reset f.pending h.single;
  secret = h.secret;
}

-- Whatever is edited, pressed and answered, at most one of the three requests is open, and the form
-- holds no password but one typed since the last save or reset that was done.
pub Session-IsSound :
    (is_email : Text → Bool) {f : SmtpForm} {typed : Bool}
    → Session is_email f typed
    → IsSound f typed
unfolding smtp_form
Session-IsSound is_email (mounted s) = record { single = omega arith; secret = λ e. refl }
Session-IsSound is_email (edited e s) = edit-IsSound e _ _ (Session-IsSound is_email s)
Session-IsSound is_email (pressed a s) = press-IsSound is_email a _ _ (Session-IsSound is_email s)
Session-IsSound is_email (ended a r s) = answered-IsSound a r _ _ (Session-IsSound is_email s)

-- What a request carries as a password.
abbrev pub sent_password : SmtpRequest → Option Text
sent_password (put_smtp body) = body.password
sent_password (post_test body) = body.password
sent_password delete_smtp = none
