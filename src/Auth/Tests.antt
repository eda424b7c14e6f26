-- ===== src/Auth/Tests.antt =====
-- Tests of the session and its forms, and the theorems at a login and a refused call.
use cdn_platform.Prelude.{◌≡◌, inl, refl, Bool, true, false, [], Option, none, some, Text, codes}
use cdn_platform.Api.{Answer}
use cdn_platform.Auth.{
  AuthStage, AuthState, initial, boot_status, login_answered, call_answered, logged_out,
}
use cdn_platform.Auth.Session.{Step, HasEnded, unauthorized-HasEnded}
use cdn_platform.Auth.Recovery.{CanEnter, stage-CanEnter}
use cdn_platform.Auth.Screen.{Factor, ScreenState, submit_login, submit_setup}

abbrev initialized : Answer Bool
initialized = record { status = 200; body = some true; error = none }

abbrev accepted : Answer (Option Text)
accepted = record { status = 200; body = some (some (codes "tok")); error = none }

abbrev refused : {D : Type 0} → Answer D
refused = record { status = 401; body = none; error = none }

session : Unit {0}
unfolding initial boot_status login_answered call_answered logged_out
session = tt

abbrev at_login : AuthState
at_login = boot_status initialized initial

logs_in :
    ((login_answered accepted at_login).stage ≡ AuthStage.authenticated)
    × ((login_answered accepted at_login).csrf_token ≡ codes "tok")
unfolding session
logs_in = (refl, refl)

-- The answer to a change that was sent before a logout comes after it.
abbrev given : Answer Text
given = record { status = 200; body = some []; error = none }

late_answer :
    ((call_answered given (logged_out (login_answered accepted at_login))).stage ≡ AuthStage.login)
    × ((call_answered given (logged_out (login_answered accepted at_login))).cached ≡ true)
unfolding session
late_answer = (refl, refl)

unauthorized-HasEnded_example :
    HasEnded (call_answered {D = Text} refused (login_answered accepted at_login))
unfolding session
unauthorized-HasEnded_example =
    unauthorized-HasEnded (Step.call (login_answered accepted at_login) Text refused (inl refl))
      refl

abbrev form : ScreenState
form = record {
  busy = false;
  notice = [];
  password = codes "a";
  confirmation = codes "b";
  totp = codes "123456";
  recovery_code = codes "r";
  factor = Factor.recovery;
}

one_factor :
    ((submit_login form).1.totp ≡ [])
    × ((submit_login form).1.recovery_code ≡ codes "r")
    × ((submit_setup form).1 ≡ none)
unfolding submit_login submit_setup
one_factor = (refl, refl, refl)

stage-CanEnter_example : CanEnter initial (codes "tok")
stage-CanEnter_example = stage-CanEnter initial (codes "tok")
