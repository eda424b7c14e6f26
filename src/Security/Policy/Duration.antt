-- ===== src/Security/Policy/Duration.antt =====
-- The ban duration that the dialog sends (frontend/src/features/security/security-page.tsx).
use cdn_platform.Prelude.{
  ℕ, ◌≡◌, ◌≢◌, ◌⊎◌, true, List, [], ◌∷◌, ◌&&◌, Option, none, some, codes, arith, any, ◌==◌, refl,
  Bool-cases, inl, inr, and_parts, if◌then◌else◌,
}
use cdn_platform.Types.Security.{SecurityPolicy, PolicyAction}
use cdn_platform.Security.Limits.{valid_ban_duration}
use cdn_platform.Security.Policy.{
  PolicyState, policy_state, Control, use_control, policy_payload, menu_durations, duration_label,
  is_ban,
}

abbrev pub session : PolicyState → List Control → PolicyState
session s [] = s
session s (c ∷ cs) = session (use_control s c) cs

use_control_valid :
    (s : PolicyState) (c : Control)
    → valid_ban_duration s.duration ≡ true
    → valid_ban_duration (use_control s c).duration ≡ true
unfolding use_control valid_ban_duration
use_control_valid s (Control.name v) h = h
use_control_valid s (Control.pattern v) h = h
use_control_valid s (Control.priority v) h = h
use_control_valid s (Control.action v) h = h
use_control_valid s (Control.enabled v) h = h
use_control_valid s (Control.duration v) h =
    elim (Bool-cases (is_ban s.action && any (λ d. v == d) menu_durations)) [
      | inl e ↦ rw e (and_parts _ _ e).1
      | inr e ↦ rw e h
    ]

session_valid :
    (s : PolicyState) (cs : List Control)
    → valid_ban_duration s.duration ≡ true
    → valid_ban_duration (session s cs).duration ≡ true
session_valid s [] h = h
session_valid s (c ∷ cs) h = session_valid (use_control s c) cs (use_control_valid s c h)

-- What the control plane stores: no duration, or one of those it accepts.
abbrev pub HasDuration : Option SecurityPolicy → Type 0
HasDuration none = Unit
HasDuration (some p) =
    (p.ban_duration_seconds ≡ none)
    ⊎ ((d : ℕ) × (p.ban_duration_seconds ≡ some d) × (valid_ban_duration d ≡ true))

policy_state_valid :
    (p : Option SecurityPolicy)
    → HasDuration p
    → valid_ban_duration (policy_state p).duration ≡ true
unfolding policy_state valid_ban_duration
policy_state_valid none h = refl
policy_state_valid (some p) (inl e) = rw e refl
policy_state_valid (some p) (inr (d, e, v)) = rw e v

label_lem : (d : ℕ) → valid_ban_duration d ≡ true → duration_label (some d) ≢ codes "--"
unfolding valid_ban_duration duration_label
label_lem d h = ground arith

sent_cases :
    (a : PolicyAction) (d : ℕ)
    → valid_ban_duration d ≡ true
    → let sent = if is_ban a then d else 0 in
      (a ≡ PolicyAction.block) × (sent ≡ 0)
      ⊎ (a ≡ PolicyAction.ban)
        × (valid_ban_duration sent ≡ true)
        × (duration_label (some sent) ≢ codes "--")
sent_cases PolicyAction.block d v = inl (refl, refl)
sent_cases PolicyAction.ban d v = inr (refl, v, label_lem d v)

-- Whatever was chosen in the dialog of a new policy, or of a stored one, a ban is sent with a
-- duration that the control plane accepts and the list can name, and a block with none.
pub sent_duration_lem :
    (p : Option SecurityPolicy) (cs : List Control)
    → HasDuration p
    → let sent = policy_payload (session (policy_state p) cs) in
      (sent.action ≡ PolicyAction.block) × (sent.ban_duration_seconds ≡ 0)
      ⊎ (sent.action ≡ PolicyAction.ban)
        × (valid_ban_duration sent.ban_duration_seconds ≡ true)
        × (duration_label (some sent.ban_duration_seconds) ≢ codes "--")
unfolding policy_payload
sent_duration_lem p cs h =
    let s = session (policy_state p) cs in
    sent_cases s.action s.duration (session_valid (policy_state p) cs (policy_state_valid p h))
