-- ===== src/Security/RateDialog.antt =====
-- The dialog of a rate-limit policy, frontend/src/features/security/security-page.tsx
-- (`RateDialogShell`): its state, its controls and what it sends.
pub mod Session
pub mod Payload
mod Tests
use cdn_platform.Prelude.{
  ℕ, ◌+◌, Bool, true, false, not, ◌&&◌, ◌||◌, List, [], ◌∷◌, ◌++◌, filter, any, Option, none, some,
  ◌or◌, Text, ltb, leb, ◌==◌, decimal, if◌then◌else◌,
}
use cdn_platform.Types.Security.{RateLimitPolicy}

pub record RateState : Type 0 where
  pub name : Text
  pub rps : ℕ
  pub enabled : Bool
  pub conditional : Bool
  pub classes : List ℕ
  pub ban_enabled : Bool
  pub ban_after : ℕ
  pub ban_duration : ℕ

unfoldable pub rate_state : Option RateLimitPolicy → RateState
rate_state none = record {
  name = [];
  rps = 20;
  enabled = true;
  conditional = false;
  classes = 4 ∷ 5 ∷ [];
  ban_enabled = false;
  ban_after = 3;
  ban_duration = 3600;
}
rate_state (some p) = record {
  name = p.name;
  rps = p.requests_per_second;
  enabled = p.enabled;
  conditional = p.response_condition_enabled;
  classes = p.response_status_classes or (4 ∷ 5 ∷ []);
  ban_enabled = p.ban_enabled;
  ban_after = p.ban_after_consecutive_429;
  ban_duration = p.ban_duration_seconds;
}

-- Texts in the order of their units, in which `sort()` puts numbers too.
unfoldable pub leb_text : Text → Text → Bool
leb_text [] t = true
leb_text (c ∷ s) [] = false
leb_text (c ∷ s) (d ∷ t) = ltb c d || (c == d && leb_text s t)

unfoldable pub insert_sorted : ℕ → List ℕ → List ℕ
unfolding leb_text decimal
insert_sorted n [] = n ∷ []
insert_sorted n (m ∷ ms) =
    let rest = insert_sorted n ms in
    if leb_text (decimal m) (decimal n) then m ∷ rest else n ∷ m ∷ ms

unfoldable pub sort_numbers : List ℕ → List ℕ
unfolding insert_sorted
sort_numbers [] = []
sort_numbers (n ∷ ns) = insert_sorted n (sort_numbers ns)

abbrev pub is_error_class : ℕ → Bool
is_error_class code = code == 4 || code == 5

abbrev errors_or_both : List ℕ → List ℕ
errors_or_both [] = 4 ∷ 5 ∷ []
errors_or_both (c ∷ cs) = c ∷ cs

-- The controls. A class box is shown for 2, 3, 4 and 5.
pub data Control : Type 0 where
  name : Text → Control
  rps : ℕ → Control
  enabled : Bool → Control
  conditional : Bool → Control
  class_box : ℕ → Bool → Control
  ban_enabled : Bool → Control
  ban_after : ℕ → Control
  ban_duration : ℕ → Control

-- A control that is disabled, or not on the screen, does nothing.
abbrev pub is_usable : RateState → Control → Bool
is_usable s (conditional _) = not s.ban_enabled
is_usable s (class_box code _) =
    s.conditional && (leb 2 code && (leb code 5 && not (s.ban_enabled && ltb code 4)))
is_usable s (ban_after _) = s.ban_enabled
is_usable s (ban_duration _) = s.ban_enabled
is_usable s _ = true

unfoldable pub set_class : ℕ → Bool → List ℕ → List ℕ
unfolding sort_numbers
set_class code checked classes =
    if checked
    then sort_numbers (classes ++ code ∷ [])
    else filter (λ item. not (item == code)) classes

unfoldable pub handle : RateState → Control → RateState
unfolding set_class
handle s (name v) = record s { name = v }
handle s (rps v) = record s { rps = v }
handle s (enabled v) = record s { enabled = v }
handle s (conditional v) = record s { conditional = v }
handle s (class_box code v) = record s { classes = set_class code v s.classes }
handle s (ban_enabled true) = record s {
  ban_enabled = true;
  conditional = true;
  classes = errors_or_both (filter is_error_class s.classes);
}
handle s (ban_enabled false) = record s { ban_enabled = false }
handle s (ban_after v) = record s { ban_after = v }
handle s (ban_duration v) = record s { ban_duration = v }

unfoldable pub use_control : RateState → Control → RateState
unfolding handle
use_control s c = if is_usable s c then handle s c else s

-- `disabled` of the submit button.
unfoldable pub submit_disabled : Bool → RateState → Bool
submit_disabled pending s =
    pending
    || (s.conditional && (elim s.classes [ [] ↦ true | c ∷ cs ↦ false ])
        || (s.ban_enabled
            && (not s.conditional
                || (any (λ code. not (code == 4) && not (code == 5)) s.classes
                    || (ltb s.ban_after 1 || ltb 100 s.ban_after)))))

pub record RatePayload : Type 0 where
  pub name : Text
  pub enabled : Bool
  pub requests_per_second : ℕ
  pub response_condition_enabled : Bool
  pub response_status_classes : List ℕ
  pub ban_enabled : Bool
  pub ban_after_consecutive_429 : ℕ
  pub ban_duration_seconds : ℕ

unfoldable pub rate_payload : RateState → RatePayload
rate_payload s = record {
  name = s.name;
  enabled = s.enabled;
  requests_per_second = s.rps;
  response_condition_enabled = s.conditional;
  response_status_classes = if s.conditional then s.classes else [];
  ban_enabled = s.ban_enabled;
  ban_after_consecutive_429 = s.ban_after;
  ban_duration_seconds = s.ban_duration;
}
