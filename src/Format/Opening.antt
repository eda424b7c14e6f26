-- ===== src/Format/Opening.antt =====
-- A printed duration opens with a digit (frontend/src/lib/format.ts).
use mathlib.Core.List.{append_assoc}
use cdn_platform.Prelude.{
  ℕ, ◌/◌, ◌%◌, ◌≡◌, refl, ap, ◌∙◌, Bool, true, false, not, List, [], ◌∷◌, ◌++◌, some, Text, codes,
  decimal, is_digit, is_truthy, starts_with, ◌==◌, join, arith,
}
use cdn_platform.Prelude.Decimal.Laws.{IsDigits, decimal-IsDigits, decimal-is_truthy}
use cdn_platform.Format.{
  part, when, day_unit, hour_unit, minute_unit, duration_parts, format_duration,
}

module _ (c : ℕ) (p : Text) (mark : is_digit c ≡ false) where
  digits_open :
      (d s : Text) → IsDigits d → is_truthy d ≡ true → starts_with (c ∷ p) (d ++ s) ≡ false
  unfolding starts_with
  digits_open [] s h e = cc
  digits_open (x ∷ d) s (hx, hd) e = ground arith

  part_opens : (n : ℕ) (unit s : Text) → starts_with (c ∷ p) (part n unit ++ s) ≡ false
  part_opens n unit s =
      ap (starts_with (c ∷ p)) (append_assoc (decimal n) unit s)
      ∙ digits_open (decimal n) (unit ++ s) (decimal-IsDigits n) (decimal-is_truthy n)

  -- A list of parts.
  data IsParts : List Text → Type 0 where
    nothing : IsParts []
    first : (n : ℕ) (unit : Text) (ps : List Text) → IsParts (part n unit ∷ ps)

  when-IsParts :
      (b : Bool) (n : ℕ) (unit : Text) (ps : List Text)
      → IsParts ps
      → IsParts (when b (part n unit) ps)
  when-IsParts true n unit ps h = first n unit ps
  when-IsParts false n unit ps h = h

  join_opens : {ps : List Text} → IsParts ps → starts_with (c ∷ p) (join (codes " ") ps) ≡ false
  unfolding join starts_with
  join_opens nothing = refl
  join_opens (first n unit []) =
      digits_open (decimal n) unit (decimal-IsDigits n) (decimal-is_truthy n)
  join_opens (first n unit (q ∷ ps)) = part_opens n unit (codes " " ++ join (codes " ") (q ∷ ps))

  -- No printed duration starts with a text that opens with something else than a digit.
  pub format_duration_opens :
      (seconds : ℕ) → starts_with (c ∷ p) (format_duration (some seconds)) ≡ false
  unfolding format_duration duration_parts
  format_duration_opens seconds =
      let days = seconds / 86400 in
      let hours = seconds % 86400 / 3600 in
      let minutes = seconds % 86400 % 3600 / 60 in
      let last = when-IsParts _ minutes minute_unit [] nothing in
      let later = when-IsParts (not (hours == 0)) hours hour_unit _ last in
      join_opens (when-IsParts (not (days == 0)) days day_unit _ later)
