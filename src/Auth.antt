-- ===== src/Auth.antt =====
-- The session of the console: frontend/src/features/auth/auth-provider.tsx, and the two forms of
-- frontend/src/features/auth/auth-screen.tsx. An event is the part of a handler that runs between
-- two waits for the control plane; the events come in any order that the screens allow.
pub mod Session
pub mod Recovery
pub mod Screen
mod Tests
use cdn_platform.Prelude.{
  ℕ, Bool, true, false, not, ◌&&◌, ◌||◌, List, [], ◌∷◌, Option, none, some, ◌or◌, Text, codes,
  if◌then◌else◌,
}
use cdn_platform.Api.{Answer, Outcome, returns, throws, api_outcome}

pub data AuthStage : Type 0 where
  boot setup login authenticated error : AuthStage

pub record SetupResult : Type 0 where
  pub totp_secret : Text
  pub otpauth_url : Text
  pub recovery_codes : List Text

-- `csrf_token` is the variable of frontend/src/lib/api.ts; `cached` says that the query client may
-- hold answers.
pub record AuthState : Type 0 where
  pub stage : AuthStage
  pub user : Text
  pub boot_error : Text
  pub setup_result : Option SetupResult
  pub csrf_token : Text
  pub cached : Bool

unfoldable pub initial : AuthState
initial = record {
  stage = AuthStage.boot;
  user = [];
  boot_error = [];
  setup_result = none;
  csrf_token = [];
  cached = false;
}

-- An absent field of an answer is `none`.
pub record SessionAnswer : Type 0 where
  pub user : Option Text
  pub csrf_token : Option Text

abbrev stage_for : Bool → AuthStage
stage_for true = AuthStage.login
stage_for false = AuthStage.setup

-- What is common to the end of a session, whoever notices it.
unfoldable pub unauthorized : AuthState → AuthState
unauthorized s = record s { csrf_token = []; user = []; cached = false; stage = AuthStage.login }

unfoldable pub begin_boot : AuthState → AuthState
begin_boot s = record s { stage = AuthStage.boot; boot_error = [] }

unfoldable pub accept_session : SessionAnswer → AuthState → AuthState
accept_session a s = record s {
  csrf_token = a.csrf_token or [];
  user = a.user or codes "admin";
  stage = AuthStage.authenticated;
}

unfoldable pub boot_failed : Text → AuthState → AuthState
boot_failed message s = record s { boot_error = message; stage = AuthStage.error }

-- The rest of `bootstrap` after a session that is not there: `initialized` of the setup status. A
-- status that is refused with 401 has announced the end of the session before it is caught.
-- An answer without a body cannot be asked for its field: that throws, and is caught too.
abbrev no_body : Text
no_body = codes "Cannot read properties of undefined (reading 'initialized')"

abbrev status_stage : Option Bool → AuthState → AuthState
status_stage none s = boot_failed no_body s
status_stage (some initialized) s = record s { stage = stage_for initialized }

abbrev caught : Outcome Bool → AuthState → AuthState
caught (returns initialized) s = status_stage initialized s
caught (throws message status body) s = boot_failed message s

unfoldable pub boot_status : Answer Bool → AuthState → AuthState
unfolding unauthorized boot_failed api_outcome
boot_status r s =
    let (outcome, expired) = api_outcome r in caught outcome (if expired then unauthorized s else s)

-- `login`: the state is kept when the call throws, and when an answer without a body is asked for
-- its token. The token of a body is `none` if it is absent.
abbrev logged_in : Outcome (Option Text) → AuthState → AuthState
logged_in (returns none) s = s
logged_in (returns (some token)) s = record s {
  csrf_token = token or [];
  user = codes "admin";
  stage = AuthStage.authenticated;
}
logged_in (throws message status body) s = s

unfoldable pub login_answered : Answer (Option Text) → AuthState → AuthState
unfolding unauthorized api_outcome
login_answered r s =
    let (outcome, expired) = api_outcome r in
    logged_in outcome (if expired then unauthorized s else s)

-- `logout`, whatever its call gives, a refusal with 401 included, which does the same before.
unfoldable pub logged_out : AuthState → AuthState
logged_out s = record s { csrf_token = []; user = []; cached = false; stage = AuthStage.login }

-- `setup`: the state is kept when the call throws; an answer without a body is no result.
abbrev set_up : Outcome SetupResult → AuthState → AuthState
set_up (returns result) s = record s { setup_result = result }
set_up (throws message status body) s = s

unfoldable pub setup_answered : Answer SetupResult → AuthState → AuthState
unfolding unauthorized api_outcome
setup_answered r s =
    let (outcome, expired) = api_outcome r in set_up outcome (if expired then unauthorized s else s)

unfoldable pub setup_completed : AuthState → AuthState
setup_completed s = record s { setup_result = none; stage = AuthStage.login }

-- Any other call of the console. It is sent in a session, but its answer may come after the end of
-- that, and a change that is done then puts its answer into the emptied cache all the same.
unfoldable pub call_answered : {D : Type 0} → Answer D → AuthState → AuthState
unfolding unauthorized api_outcome
call_answered r s =
    let (outcome, expired) = api_outcome r in
    if expired then unauthorized s else record s { cached = true }
