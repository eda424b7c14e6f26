-- ===== src/Auth/Screen.antt =====
-- The two forms of frontend/src/features/auth/auth-screen.tsx.
use cdn_platform.Prelude.{
  ◌≡◌, ◌≢◌, ◌⊎◌, ap, Bool-cases, Bool, true, false, not, [], Option, none, some, Text, codes, ◌===◌,
  ===_iff, arith, if◌then◌else◌, inl, inr,
}

pub data Factor : Type 0 where
  totp recovery : Factor

pub record ScreenState : Type 0 where
  pub busy : Bool
  pub notice : Text
  pub password : Text
  pub confirmation : Text
  pub totp : Text
  pub recovery_code : Text
  pub factor : Factor

pub record LoginInput : Type 0 where
  pub password : Text
  pub totp : Text
  pub recovery_code : Text

-- The state while the request runs, and the password that is sent, if one is.
unfoldable pub submit_setup : ScreenState → ScreenState × Option Text
unfolding ◌===◌
submit_setup s =
    if not (s.password === s.confirmation)
    then (record s { notice = codes "两次输入的密码不一致" }, none)
    else (record s { busy = true; notice = [] }, some s.password)

abbrev if_totp : Factor → Text → Text
if_totp Factor.totp t = t
if_totp Factor.recovery t = []

abbrev if_recovery : Factor → Text → Text
if_recovery Factor.totp t = []
if_recovery Factor.recovery t = t

unfoldable pub submit_login : ScreenState → ScreenState × LoginInput
submit_login s = (
  record s { busy = true; notice = [] },
  record {
    password = s.password;
    totp = if_totp s.factor s.totp;
    recovery_code = if_recovery s.factor s.recovery_code;
  },
)

-- The end of either request: the message of what it threw, if it threw.
unfoldable pub request_finished : Option Text → ScreenState → ScreenState
request_finished none s = record s { busy = false }
request_finished (some message) s = record s { busy = false; notice = message }

-- A setup is sent exactly when the two passwords agree, and sends that password; otherwise the form
-- says so and stays usable.
pub submit_setup_lem :
    (s : ScreenState)
    → (s.password ≡ s.confirmation) × ((submit_setup s).1 ≡ some s.confirmation)
      ⊎ (s.password ≢ s.confirmation)
        × ((submit_setup s).1 ≡ none)
        × ((submit_setup s).0.busy ≡ s.busy)
unfolding submit_setup
submit_setup_lem s = elim (Bool-cases (s.password === s.confirmation)) [
  | inl agree ↦
      let same : s.password ≡ s.confirmation = (===_iff s.password s.confirmation).0 agree in
      inl (same, rw agree (ap some same))
  | inr differ ↦
      inr ((λ same. cc (differ, (===_iff s.password s.confirmation).1 same)), rw differ, rw differ)
]

-- A login sends one factor alone: the other is empty, whatever its field holds.
pub submit_login_lem :
    (s : ScreenState)
    → ((submit_login s).1.password ≡ s.password)
      × (((submit_login s).1.totp ≡ s.totp) × ((submit_login s).1.recovery_code ≡ [])
          ⊎ ((submit_login s).1.totp ≡ []) × ((submit_login s).1.recovery_code ≡ s.recovery_code))
unfolding submit_login
submit_login_lem s = ground arith
