-- ===== src/Security/RateDialog/Session.antt =====
-- What holds however the controls are used (frontend/src/features/security/security-page.tsx).
use cdn_platform.Prelude.{
  ℕ, ◌≡◌, refl, Bool, true, false, not, List, [], ◌∷◌, ◌++◌, All, All-append, All-filter,
  All-filter_self, Bool-cases, inl, inr, arith, decimal, none, ◌==◌,
}
use cdn_platform.Security.RateDialog.{
  RateState, rate_state, Control, name, rps, enabled, conditional, class_box, ban_enabled,
  ban_after, ban_duration, use_control, handle, is_usable, is_error_class, set_class, sort_numbers,
  insert_sorted, leb_text, errors_or_both,
}

module _ {κ} (P : ℕ → Type κ) where
  All-insert_sorted : (n : ℕ) (ns : List ℕ) → P n → All P ns → All P (insert_sorted n ns)
  unfolding insert_sorted
  All-insert_sorted n [] p h = (p, tt)
  All-insert_sorted n (m ∷ ms) p (q, h) = elim (Bool-cases (leb_text (decimal m) (decimal n))) [
    | inl e ↦ rw e (q, All-insert_sorted n ms p h)
    | inr e ↦ rw e (p, (q, h))
  ]

  All-sort_numbers : (ns : List ℕ) → All P ns → All P (sort_numbers ns)
  unfolding sort_numbers
  All-sort_numbers [] h = tt
  All-sort_numbers (n ∷ ns) (p, h) = All-insert_sorted n (sort_numbers ns) p (All-sort_numbers ns h)

  -- What holds of the classes and of the box's class holds of the classes after a click.
  pub All-set_class :
      (code : ℕ) (checked : Bool) (ns : List ℕ)
      → P code
      → All P ns
      → All P (set_class code checked ns)
  unfolding set_class
  All-set_class code true ns p h =
      All-sort_numbers (ns ++ code ∷ []) (All-append P ns (code ∷ []) h (p, tt))
  All-set_class code false ns p h = All-filter P (λ item. not (item == code)) ns h

-- With the ban on, the condition is on and every class is 4 or 5.
pub record BanIsConditional (s : RateState) : Type 0 where
  pub condition : s.ban_enabled ≡ true → s.conditional ≡ true
  pub classes : s.ban_enabled ≡ true → All (λ c. is_error_class c ≡ true) s.classes

errors_or_both-All :
    (cs : List ℕ)
    → All (λ c. is_error_class c ≡ true) cs
    → All (λ c. is_error_class c ≡ true) (errors_or_both cs)
errors_or_both-All [] h = (refl, (refl, tt))
errors_or_both-All (c ∷ cs) h = h

handle-BanIsConditional :
    (s : RateState) (c : Control)
    → is_usable s c ≡ true
    → BanIsConditional s
    → BanIsConditional (handle s c)
unfolding handle
handle-BanIsConditional s (conditional v) u h = record {
  condition = λ e. ground arith;
  classes = h.classes;
}
handle-BanIsConditional s (class_box code v) u h = record {
  condition = h.condition;
  classes = λ e. All-set_class _ code v s.classes (ground arith) (h.classes e);
}
handle-BanIsConditional s (ban_enabled true) u h = record {
  condition = λ e. refl;
  classes = λ e. errors_or_both-All _ (All-filter_self is_error_class s.classes);
}
handle-BanIsConditional s (ban_enabled false) u h = record {
  condition = λ e. cc;
  classes = λ e. absurd (ground arith);
}
handle-BanIsConditional s (name v) u h = record { condition = h.condition; classes = h.classes }
handle-BanIsConditional s (rps v) u h = record { condition = h.condition; classes = h.classes }
handle-BanIsConditional s (enabled v) u h = record { condition = h.condition; classes = h.classes }
handle-BanIsConditional s (ban_after v) u h = record {
  condition = h.condition;
  classes = h.classes;
}
handle-BanIsConditional s (ban_duration v) u h = record {
  condition = h.condition;
  classes = h.classes;
}

use_control-BanIsConditional :
    (s : RateState) (c : Control) → BanIsConditional s → BanIsConditional (use_control s c)
unfolding use_control
use_control-BanIsConditional s c h = elim (Bool-cases (is_usable s c)) [
  | inl u ↦ rw u (handle-BanIsConditional s c u h)
  | inr u ↦ rw u h
]

abbrev pub session : RateState → List Control → RateState
session s [] = s
session s (c ∷ cs) = session (use_control s c) cs

-- Whatever controls are used in whatever order, a ban stays tied to a condition on error classes:
-- from the empty dialog, and from a policy of which that holds.
pub session-BanIsConditional :
    (cs : List Control) (s : RateState) → BanIsConditional s → BanIsConditional (session s cs)
session-BanIsConditional [] s h = h
session-BanIsConditional (c ∷ cs) s h =
    session-BanIsConditional cs (use_control s c) (use_control-BanIsConditional s c h)

pub rate_state-BanIsConditional : BanIsConditional (rate_state none)
unfolding rate_state
rate_state-BanIsConditional = record { condition = λ e. cc; classes = λ e. absurd (ground arith) }
