-- ===== src/Format/Reading.antt =====
-- A printed duration can be read back (frontend/src/lib/format.ts).
use cdn_platform.Prelude.{
  ℕ, ◌+◌, ◌*◌, ◌-◌, ◌/◌, ◌%◌, ◌≡◌, ◌↔◌, refl, sym, ap, ◌∙◌, Bool, true, false, not, ◌&&◌, ◌||◌, [],
  ◌∷◌, ◌++◌, some, Text, codes, decimal, value_from, is_digit, ◌==◌, join, arith,
}
use mathlib.Core.List.{List, append_assoc, append-nil}
use cdn_platform.Prelude.Decimal.Laws.{IsDigits, decimal-IsDigits, value_from-decimal}
use cdn_platform.Format.{
  part, when, day_unit, hour_unit, minute_unit, duration_parts, format_duration,
}

-- The minutes that a text of numbers and units says: `total` before it, `digits` the number begun.
unfoldable pub read_from : ℕ → ℕ → Text → ℕ
read_from total digits [] = total
read_from total digits (c ∷ s) = elim (is_digit c) [
  | true ↦ read_from total (digits * 10 + (c - 48)) s
  | false ↦ elim (c == 22825) [
    | true ↦ read_from (total + digits * 1440) 0 s
    | false ↦ elim (c == 23567) [
      | true ↦ read_from (total + digits * 60) 0 s
      | false ↦ elim (c == 20998) [
        | true ↦ read_from (total + digits) 0 s
        | false ↦ read_from total digits s
      ]
    ]
  ]
]

abbrev pub read_duration : Text → ℕ
read_duration s = read_from 0 0 s

read_from-digits :
    (total n : ℕ) (d s : Text)
    → IsDigits d
    → read_from total n (d ++ s) ≡ read_from total (value_from n d) s
unfolding read_from value_from
read_from-digits total n [] s h = refl
read_from-digits total n (c ∷ d) s (hc, hd) =
    rw (read_from, hc) (read_from-digits total (n * 10 + (c - 48)) d s hd)

read_from-decimal :
    (total n : ℕ) (s : Text) → read_from total 0 (decimal n ++ s) ≡ read_from total n s
read_from-decimal total n s =
    read_from-digits total 0 (decimal n) s (decimal-IsDigits n)
    ∙ ap (λ k. read_from total k s) (value_from-decimal n)

-- A text that says `w` minutes, whatever follows it.
abbrev Says : ℕ → Text → Type 0
Says w x =
    (t : ℕ)
    → (read_from t 0 x ≡ t + w) × ((s : Text) → read_from t 0 (x ++ s) ≡ read_from (t + w) 0 s)

part-Says :
    (n w : ℕ) (unit : Text)
    → ((t : ℕ) (s : Text) → read_from t n (unit ++ s) ≡ read_from (t + w) 0 s)
    → Says w (part n unit)
unfolding read_from
part-Says n w unit h t = (
  read_from-decimal t n unit ∙ (ap (read_from t n) (sym (append-nil unit)) ∙ h t []),
  λ s. ap (read_from t 0) (append_assoc (decimal n) unit s) ∙ (read_from-decimal t n _ ∙ h t s),
)

abbrev Weighs : ℕ → List Text → Type 0
Weighs w ps = (t : ℕ) → read_from t 0 (join (codes " ") ps) ≡ t + w

weigh_cons :
    (w v : ℕ) (x : Text) (ps : List Text) → Says w x → Weighs v ps → Weighs (w + v) (x ∷ ps)
unfolding read_from join
weigh_cons w v x [] hx h t =
    let none_left : 0 ≡ 0 + v = h 0 in
    let same : t + w ≡ t + (w + v) = omega arith in (hx t).0 ∙ same
weigh_cons w v x (y ∷ ps) hx h t =
    let same : (t + w) + v ≡ t + (w + v) = omega arith in (hx t).1 _ ∙ (h (t + w) ∙ same)

weigh_when :
    (b : Bool) (w v : ℕ) (x : Text) (ps : List Text)
    → (b ≡ false → w ≡ 0)
    → Says w x
    → Weighs v ps
    → Weighs (w + v) (when b x ps)
weigh_when true w v x ps hb hx h = weigh_cons w v x ps hx h
weigh_when false w v x ps hb hx h =
    let same : v ≡ w + v = omega (arith, hb refl) in λ t. h t ∙ ap (t +◌) same

weigh_nothing : Weighs 0 []
unfolding join read_from
weigh_nothing t = omega arith

-- The unit of each part.
days-Says : (n : ℕ) → Says (n * 1440) (part n day_unit)
unfolding read_from
days-Says n = part-Says n (n * 1440) day_unit (λ t s. refl)

hours-Says : (n : ℕ) → Says (n * 60) (part n hour_unit)
unfolding read_from
hours-Says n = part-Says n (n * 60) hour_unit (λ t s. refl)

minutes-Says : (n : ℕ) → Says n (part n minute_unit)
unfolding read_from
minutes-Says n = part-Says n n minute_unit (λ t s. refl)

-- A printed duration says its whole minutes: days, hours and minutes read from the text add up to the
-- seconds divided by 60.
pub read_duration-format_duration :
    (seconds : ℕ) → read_duration (format_duration (some seconds)) ≡ seconds / 60
unfolding format_duration duration_parts
read_duration-format_duration seconds =
    let days = seconds / 86400 in
    let hours = seconds % 86400 / 3600 in
    let minutes = seconds % 86400 % 3600 / 60 in
    let last =
      when (not (minutes == 0) || ((days == 0) && (hours == 0))) (part minutes minute_unit) [] in
    let later = when (not (hours == 0)) (part hours hour_unit) last in
    let whole = when (not (days == 0)) (part days day_unit) later in
    let weigh_last : Weighs (minutes + 0) last =
      weigh_when _ minutes 0 (part minutes minute_unit) [] (λ e. ground arith)
        (minutes-Says minutes) weigh_nothing in
    let weigh_later : Weighs (hours * 60 + (minutes + 0)) later =
      weigh_when _ (hours * 60) (minutes + 0) (part hours hour_unit) last (λ e. ground arith)
        (hours-Says hours) weigh_last in
    let weigh_whole : Weighs (days * 1440 + (hours * 60 + (minutes + 0))) whole =
      weigh_when _ (days * 1440) (hours * 60 + (minutes + 0)) (part days day_unit) later
        (λ e. ground arith) (days-Says days) weigh_later in
    let sum : 0 + (days * 1440 + (hours * 60 + (minutes + 0))) ≡ seconds / 60 = omega arith in
    weigh_whole 0 ∙ sum

-- Two durations are printed alike exactly when they have the same whole minutes.
pub format_duration_alike :
    (a b : ℕ) → (format_duration (some a) ≡ format_duration (some b)) ↔ (a / 60 ≡ b / 60)
unfolding format_duration duration_parts
format_duration_alike a b = (
  λ e.
      sym (read_duration-format_duration a)
      ∙ (ap read_duration e ∙ read_duration-format_duration b),
  λ e.
      let days : a / 86400 ≡ b / 86400 = omega arith in
      let hours : a % 86400 / 3600 ≡ b % 86400 / 3600 = omega arith in
      let minutes : a % 86400 % 3600 / 60 ≡ b % 86400 % 3600 / 60 = omega arith in
      rw (days, hours, minutes) refl,
)
