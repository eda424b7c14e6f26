-- ===== src/Auth/Recovery.antt =====
-- No dead ends in the session (frontend/src/features/auth/auth-provider.tsx).
use cdn_platform.Prelude.{◌≡◌, refl, inl, [], Option, none, some, Text}
use cdn_platform.Api.{Answer}
use cdn_platform.Auth.{
  AuthStage, AuthState, SessionAnswer, begin_boot, accept_session, login_answered, logged_out,
  SetupResult, setup_answered, setup_completed,
}
use cdn_platform.Auth.Session.{Step, retry, session, login, logout, setup, complete}

-- Steps one after another.
infix 20 ◌⟶*◌
pub data ◌⟶*◌ : AuthState → AuthState → Type 1 where
  here : (s : AuthState) → s ⟶* s
  and_then : {s t u : AuthState} → Step s t → t ⟶* u → s ⟶* u

-- From a state, steps lead into the console with the given token.
abbrev pub CanEnter : AuthState → Text → Type 1
CanEnter s token =
    (t : AuthState) × (s ⟶* t) × (t.stage ≡ AuthStage.authenticated) × (t.csrf_token ≡ token)

abbrev accepted : Text → Answer (Option Text)
accepted token = record { status = 200; body = some (some token); error = none }

abbrev present : Text → SessionAnswer
present token = record { user = none; csrf_token = some token }

before_entry : {s u : AuthState} {token : Text} → Step s u → CanEnter u token → CanEnter s token
before_entry first (t, path, stage, held) = (t, and_then first path, stage, held)

from_login : (s : AuthState) (token : Text) → s.stage ≡ AuthStage.login → CanEnter s token
unfolding login_answered
from_login s token h =
    (login_answered (accepted token) s, and_then (login s (accepted token) h) (here _), refl, refl)

from_boot : (s : AuthState) (token : Text) → s.stage ≡ AuthStage.boot → CanEnter s token
unfolding accept_session
from_boot s token h =
    (accept_session (present token) s, and_then (session s (present token) h) (here _), refl, refl)

-- A setup that has given its result is completed.
from_result :
    (s : AuthState) (r : SetupResult) (token : Text)
    → s.stage ≡ AuthStage.setup
    → s.setup_result ≡ some r
    → CanEnter s token
unfolding setup_completed
from_result s r token h given =
    before_entry (complete s r h given) (from_login (setup_completed s) token refl)

abbrev created : SetupResult
created = record { totp_secret = []; otpauth_url = []; recovery_codes = [] }

-- What the control plane answers to a setup with a result.
abbrev answer_of : SetupResult → Answer SetupResult
answer_of r = record { status = 200; body = some r; error = none }

from_setup :
    (s : AuthState) (token : Text)
    → s.stage ≡ AuthStage.setup
    → (result : Option SetupResult) → s.setup_result ≡ result
    → CanEnter s token
unfolding setup_answered
from_setup s token h (some r) given = from_result s r token h given
from_setup s token h none given =
    before_entry (setup s (answer_of created) h given)
      (from_result (setup_answered (answer_of created) s) created token h refl)

from_stage : (s : AuthState) (token : Text) (stage : AuthStage) → s.stage ≡ stage → CanEnter s token
unfolding begin_boot logged_out
from_stage s token AuthStage.boot h = from_boot s token h
from_stage s token AuthStage.login h = from_login s token h
from_stage s token AuthStage.error h =
    before_entry (retry s h) (from_boot (begin_boot s) token refl)
from_stage s token AuthStage.setup h = from_setup s token h s.setup_result refl
from_stage s token AuthStage.authenticated h =
    before_entry (logout s (inl h)) (from_login (logged_out s) token refl)

-- From every state, whatever its stage and also after an error, steps that the screens allow lead into
-- the console with any token that the control plane hands out; from a setup without a result they lead
-- through its answer.
pub stage-CanEnter : (s : AuthState) (token : Text) → CanEnter s token
stage-CanEnter s token = from_stage s token s.stage refl
