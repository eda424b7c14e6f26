-- ===== src/Auth/Session.antt =====
-- What holds in every state that the events reach
-- (frontend/src/features/auth/auth-provider.tsx).
use cdn_platform.Prelude.{
  ◌≡◌, ◌≢◌, ◌≤◌, ◌↔◌, ◌or◌, Option-cases, ◌⊎◌, Bool, true, false, none, not, ◌||◌, ◌==◌,
  if◌then◌else◌, [], Option, some, Text, arith, inl, inr,
}
use cdn_platform.Api.{Answer}
use cdn_platform.Auth.{
  AuthStage, AuthState, initial, SetupResult, SessionAnswer, unauthorized, begin_boot,
  accept_session, boot_failed, boot_status, login_answered, logged_out, setup_answered,
  setup_completed, call_answered,
}

-- A session, or its end: the stages in which a request of the console can be answered.
abbrev pub IsAnswering : AuthState → Type 0
IsAnswering s = (s.stage ≡ AuthStage.authenticated) ⊎ (s.stage ≡ AuthStage.login)

-- The events, with the stage whose screen, or whose running boot, allows them. A logout, and any other
-- call of the console, may be answered after the end of the session that sent it.
pub data Step : AuthState → AuthState → Type 1 where
  retry : (s : AuthState) → s.stage ≡ AuthStage.error → Step s (begin_boot s)
  session :
      (s : AuthState) (a : SessionAnswer) → s.stage ≡ AuthStage.boot → Step s (accept_session a s)
  status : (s : AuthState) (r : Answer Bool) → s.stage ≡ AuthStage.boot → Step s (boot_status r s)
  failed :
      (s : AuthState) (message : Text) → s.stage ≡ AuthStage.boot → Step s (boot_failed message s)
  login :
      (s : AuthState) (r : Answer (Option Text))
      → s.stage ≡ AuthStage.login
      → Step s (login_answered r s)
  logout : (s : AuthState) → IsAnswering s → Step s (logged_out s)
  call : (s : AuthState) (D : Type 0) (r : Answer D) → IsAnswering s → Step s (call_answered r s)
  setup :
      (s : AuthState) (r : Answer SetupResult)
      → s.stage ≡ AuthStage.setup
      → s.setup_result ≡ none
      → Step s (setup_answered r s)
  complete :
      (s : AuthState) (r : SetupResult)
      → s.stage ≡ AuthStage.setup
      → s.setup_result ≡ some r
      → Step s (setup_completed s)

-- No event leads from these stages to another one.
Step-IsAnswering : {s t : AuthState} → Step s t → IsAnswering s → IsAnswering t
unfolding begin_boot accept_session boot_status boot_failed login_answered logged_out call_answered
    setup_answered setup_completed unauthorized
Step-IsAnswering (retry s h) a = ground arith
Step-IsAnswering (session s r h) a = ground arith
Step-IsAnswering (status s r h) a = ground arith
Step-IsAnswering (failed s m h) a = ground arith
Step-IsAnswering (login s r h) a = ground arith
Step-IsAnswering (logout s h) a = ground arith
Step-IsAnswering (call s D r h) a = ground arith
Step-IsAnswering (setup s r h n) a = ground arith
Step-IsAnswering (complete s r h n) a = ground arith

abbrev is_authenticated : AuthStage → Bool
is_authenticated AuthStage.authenticated = true
is_authenticated _ = false

abbrev refuses : {D : Type 0} → Answer D → Bool
refuses r = r.status == 401

-- Whether the answer to a call has come outside a session since the cache was last emptied.
abbrev pub late_after : {s t : AuthState} → Step s t → Bool → Bool
late_after (retry s h) late = late
late_after (session s a h) late = late
late_after (status s r h) late = if refuses r then false else late
late_after (failed s m h) late = late
late_after (login s r h) late = if refuses r then false else late
late_after (logout s h) late = false
late_after (call s D r h) late = if refuses r then false else late || not (is_authenticated s.stage)
late_after (setup s r h n) late = if refuses r then false else late
late_after (complete s r h n) late = late

pub data Reach : AuthState → Bool → Type 1 where
  start : Reach initial false
  step :
      {s t : AuthState} {late : Bool} → Reach s late → (e : Step s t) → Reach t (late_after e late)

-- Outside an authenticated session there is no user, no token, and no cached answer but late ones.
pub record IsClean (s : AuthState) (late : Bool) : Type 0 where
  pub user : (s.stage ≡ AuthStage.authenticated) ⊎ (s.user ≡ [])
  pub csrf_token : (s.stage ≡ AuthStage.authenticated) ⊎ (s.csrf_token ≡ [])
  pub cached : (s.stage ≡ AuthStage.authenticated) ⊎ (s.cached ≡ false) ⊎ (late ≡ true)

-- The session has ended: the login form is shown or the boot has failed, and nothing of the
-- session is left.
pub record HasEnded (s : AuthState) : Type 0 where
  pub stage : s.stage ≢ AuthStage.authenticated
  pub user : s.user ≡ []
  pub csrf_token : s.csrf_token ≡ []
  pub cached : s.cached ≡ false

-- The event is an answer with the status 401 to a request of `api`, or the end of a logout.
abbrev pub IsRefusal : {s t : AuthState} → Step s t → Type 0
IsRefusal (status s r h) = r.status ≡ 401
IsRefusal (login s r h) = r.status ≡ 401
IsRefusal (logout s h) = Unit
IsRefusal (call s D r h) = r.status ≡ 401
IsRefusal (setup s r h n) = r.status ≡ 401
IsRefusal _ = ⊥

-- A request of `api` that is answered with the status 401 ends the session, in every state in which it
-- can be answered: that of the setup status, a login, a logout, whatever its answer, a setup and any
-- other call of the console. The check for a session at the start is no request of `api`.
pub unauthorized-HasEnded : {s t : AuthState} (e : Step s t) → IsRefusal e → HasEnded t
unfolding boot_status login_answered call_answered unauthorized boot_failed logged_out
    setup_answered
unauthorized-HasEnded (status s r h) refused = ground arith
unauthorized-HasEnded (login s r h) refused = ground arith
unauthorized-HasEnded (logout s h) refused = ground arith
unauthorized-HasEnded (call s D r h) refused = ground arith
unauthorized-HasEnded (setup s r h n) refused = ground arith
unauthorized-HasEnded (retry s h) refused = absurd refused
unauthorized-HasEnded (session s a h) refused = absurd refused
unauthorized-HasEnded (failed s m h) refused = absurd refused
unauthorized-HasEnded (complete s r h n) refused = absurd refused

-- A login leads into the console exactly when it is answered with success and a body, and then
-- holds the token of that body.
pub login_answered_iff :
    (r : Answer (Option Text)) (s : AuthState)
    → s.stage ≡ AuthStage.login
    → ((login_answered r s).stage ≡ AuthStage.authenticated) ↔ (
        (200 ≤ r.status)
        × (r.status ≤ 299)
        × (token : Option Text) × (r.body ≡ some token)
        × ((login_answered r s).csrf_token ≡ (token or [])))
unfolding login_answered
login_answered_iff r s h = (λ e. into e, λ p. ground arith)
  where
    into :
        (login_answered r s).stage ≡ AuthStage.authenticated
        → (200 ≤ r.status)
          × (r.status ≤ 299)
          × (token : Option Text) × (r.body ≡ some token)
          × ((login_answered r s).csrf_token ≡ (token or []))
    into e = elim (Option-cases r.body) [
      | inl none_given ↦ absurd (ground arith)
      | inr (token, given) ↦ (ground arith, ground arith, token, given, ground arith)
    ]
